-- ===== src/Dbms/Directories.antt =====
-- `open_directory` of src/dbms/dbmsUtil.c, where no call fails by an error of the system.
use ds_lab_assignment.Prelude.{◌≡◌, [], ◌∷◌, ◌++◌, some, Bytes, arith}
use ds_lab_assignment.Util.Codes.{dbms_success, dbms_err_exists, dbms_err_not_exists}
use ds_lab_assignment.Util.Types.{Mode}
use ds_lab_assignment.Dbms.Fs.{
  Fs, FilePath, dir, Entries, end, enoent, ok, err, open_dir, make_dir, components, insert_new,
  walk, create,
}
use ds_lab_assignment.Dbms.Fs.Laws.{create-IsLocal, create-Leaves}
use ds_lab_assignment.Dbms.Util.{open_directory, no_directory}
use ds_lab_assignment.Dbms.Remove.Laws.{NoFaults}
use ds_lab_assignment.Dbms.Edited.{Edited, changed-Edited, NoFaults-Edited}
use ds_lab_assignment.Dbms.Files.{no_child_of_walk}

module _ (fs : Fs) (sound : NoFaults fs.faulty) (path : Bytes) (p : FilePath)
    (at_path : components path ≡ p) where
  -- READ and CREATE, where the directory is there
  pub open_there :
      (es : Entries)
      → walk p fs.root ≡ ok (dir es)
      → (open_directory path Mode.read fs ≡ record { result = dbms_success; entries = es; fs = fs })
        × (open_directory path Mode.create fs
            ≡ record { result = dbms_err_exists; entries = es; fs = fs })
  unfolding open_directory
  open_there es w = (
    ground (arith, sound open_dir path, at_path, w),
    ground (arith, sound open_dir path, at_path, w),
  )

  -- READ, where there is nothing
  pub open_missing :
      walk p fs.root ≡ err enoent
      → open_directory path Mode.read fs ≡ no_directory dbms_err_not_exists fs
  unfolding open_directory
  open_missing w = ground (arith, sound open_dir path, at_path, w)

-- A directory that was made, and is empty.
pub record Made (fs : Fs) (path : Bytes) (p : FilePath) : Type 0 where
  pub after : Fs
  pub result :
      open_directory path Mode.create fs
      ≡ record { result = dbms_success; entries = end; fs = after }
  pub edited : Edited fs after p (some (dir end))

-- CREATE, where there is nothing
pub make_missing :
    (fs : Fs) (path : Bytes) (p : FilePath) (name : Bytes) (es : Entries)
    → NoFaults fs.faulty
    → components path ≡ p ++ name ∷ []
    → walk p fs.root ≡ ok (dir es)
    → walk (p ++ name ∷ []) fs.root ≡ err enoent
    → Made fs path (p ++ name ∷ [])
unfolding open_directory
make_missing fs path p name es sound at_path above absent =
    let free = no_child_of_walk p name fs.root enoent es above absent in
    let (fs', made, edited) =
      changed-Edited fs path p name es (insert_new fs.place name (dir end) es)
        (create-IsLocal fs.place (dir end)) (create-Leaves fs.place (dir end)) at_path above
        (unfold create in ground (arith, free)) in
    record {
      after = fs';
      result = ground (
        arith,
        sound open_dir path,
        sound make_dir path,
        at_path,
        absent,
        made,
        edited.here,
        NoFaults-Edited edited sound open_dir path,
      );
      edited = edited;
    }
