-- ===== src/Dbms/Files.antt =====
-- Reading, creating and overwriting an entry's file (`open_file`, `read_entry` and `write_entry` of
-- src/dbms/dbmsUtil.c), where no call fails by an error of the system.
use ds_lab_assignment.Prelude.{◌≡◌, [], ◌∷◌, ◌++◌, none, some, inl, inr, Option-cases, Bytes, arith}
use ds_lab_assignment.Util.Codes.{dbms_success}
use ds_lab_assignment.Util.Types.{Entry, Mode}
use ds_lab_assignment.Dbms.Fs.{
  Fs, FileData, blank, image, Node, file, dir, Entries, Errno, enoent, ok, err, open_entry,
  write_entry, read_entry, FilePath, components, child, put_child, insert_new, names, walk, create,
  rewrite,
}
use ds_lab_assignment.Dbms.Fs.Laws.{
  walk-append, put_child-put_child, put_child-insert_child, rewrite-IsLocal, rewrite-Leaves,
  create-IsLocal, create-Leaves,
}
use ds_lab_assignment.Dbms.Util.{fd, failed, open_file, read_entry_file, write_entry_file}
use ds_lab_assignment.Dbms.Remove.Laws.{NoFaults}
use ds_lab_assignment.Dbms.Edited.{
  Edited, Edited-trans, changed-Edited, changed-parent, NoFaults-Edited,
}

pub child_of_walk :
    (p : FilePath) (name : Bytes) (t n : Node) (es : Entries)
    → walk p t ≡ ok (dir es)
    → walk (p ++ name ∷ []) t ≡ ok n
    → child name es ≡ some n
child_of_walk p name t n es w h = elim (Option-cases (child name es)) [
  | inl gone ↦ absurd (unfold walk in ground (arith, walk-append p (name ∷ []) t (dir es) w))
  | inr (m, e) ↦ unfold walk in ground (arith, e, walk-append p (name ∷ []) t (dir es) w)
]

pub no_child_of_walk :
    (p : FilePath) (name : Bytes) (t : Node) (e : Errno) (es : Entries)
    → walk p t ≡ ok (dir es)
    → walk (p ++ name ∷ []) t ≡ err e
    → child name es ≡ none
no_child_of_walk p name t e es w h = elim (Option-cases (child name es)) [
  | inl gone ↦ gone
  | inr (m, here) ↦
      absurd (unfold walk in ground (arith, here, walk-append p (name ∷ []) t (dir es) w))
]

module _ (fs : Fs) (sound : NoFaults fs.faulty) (path : Bytes) (p : FilePath) (name : Bytes)
    (at_path : components path ≡ p ++ name ∷ []) where
  -- a struct read from a file that holds one
  pub read_file :
      (e stored : Entry)
      → walk (p ++ name ∷ []) fs.root ≡ ok (file (image stored))
      → (open_file path Mode.read fs ≡ fd path fs)
        × (read_entry_file path e fs ≡ record { result = dbms_success; entry = stored })
  unfolding open_file read_entry_file
  read_file e stored w = (
    ground (arith, sound (open_entry Mode.read) path, at_path, w),
    ground (arith, sound read_entry path, at_path, w),
  )

  -- a file that is not there, or whose directory is not
  pub read_missing :
      walk (p ++ name ∷ []) fs.root ≡ err enoent → open_file path Mode.read fs ≡ failed enoent
  unfolding open_file
  read_missing w = ground (arith, sound (open_entry Mode.read) path, at_path, w)

  -- a struct written to a file that is there
  write_file :
      (e : Entry) (d : FileData) (es : Entries)
      → walk p fs.root ≡ ok (dir es)
      → walk (p ++ name ∷ []) fs.root ≡ ok (file d)
      → (fs' : Fs) × (write_entry_file path e fs ≡ (dbms_success, fs'))
        × (walk p fs'.root ≡ ok (dir (put_child name (file (image e)) es)))
        × Edited fs fs' (p ++ name ∷ []) (some (file (image e)))
  unfolding write_entry_file
  write_file e d es w h =
      let there = child_of_walk p name fs.root (file d) es w h in
      let rewritten : rewrite (image e) name es ≡ ok (put_child name (file (image e)) es) =
        unfold rewrite in ground (arith, there) in
      let (fs', made, edited) =
        changed-Edited fs path p name es (put_child name (file (image e)) es)
          (rewrite-IsLocal (image e)) (rewrite-Leaves (image e)) at_path w rewritten in
      (
        fs',
        ground (arith, sound write_entry path, made),
        changed-parent (rewrite (image e)) fs fs' path p name es
            (put_child name (file (image e)) es) at_path w rewritten made,
        edited,
      )

-- a directory with such a file
abbrev pub with_file : Fs → Mode → Bytes → FileData → Entries → Entries
with_file fs Mode.create name d es = insert_new fs.place name (file d) es
with_file fs _ name d es = put_child name (file d) es

-- The file at `path` opened with O_TRUNC or O_CREAT, and the struct written to it.
pub record Stored (fs : Fs) (path : Bytes) (p : FilePath) (name : Bytes) (es : Entries) (e : Entry)
    (mode : Mode) : Type 0 where
  pub open_fs : Fs
  pub after : Fs
  pub was_opened : open_file path mode fs ≡ fd path open_fs
  pub written : write_entry_file path e open_fs ≡ (dbms_success, after)
  pub entries : walk p after.root ≡ ok (dir (with_file fs mode name (image e) es))
  pub edited : Edited fs after (p ++ name ∷ []) (some (file (image e)))

module _ (fs : Fs) (sound : NoFaults fs.faulty) (path : Bytes) (p : FilePath) (name : Bytes)
    (at_path : components path ≡ p ++ name ∷ []) (e : Entry) (es : Entries)
    (above : walk p fs.root ≡ ok (dir es)) where
  Stored-behind :
      (mode : Mode) (open_fs : Fs)
      → open_file path mode fs ≡ fd path open_fs
      → walk p open_fs.root ≡ ok (dir (with_file fs mode name blank es))
      → put_child name (file (image e)) (with_file fs mode name blank es)
        ≡ with_file fs mode name (image e) es
      → Edited fs open_fs (p ++ name ∷ []) (some (file blank))
      → Stored fs path p name es e mode
  Stored-behind mode open_fs opened above' over edited =
      let (after, written, entries, edited') =
        write_file open_fs (NoFaults-Edited edited sound) path p name at_path e blank
          (with_file fs mode name blank es) above' edited.here in
      record {
        open_fs = open_fs;
        after = after;
        was_opened = opened;
        written = written;
        entries = rw over at entries;
        edited = Edited-trans edited edited';
      }

  pub modify_file :
      (d : FileData)
      → walk (p ++ name ∷ []) fs.root ≡ ok (file d)
      → Stored fs path p name es e Mode.modify
  unfolding open_file
  modify_file d h =
      let there = child_of_walk p name fs.root (file d) es above h in
      let cut : rewrite blank name es ≡ ok (put_child name (file blank) es) =
        unfold rewrite in ground (arith, there) in
      let (fs', made, edited) =
        changed-Edited fs path p name es (put_child name (file blank) es) (rewrite-IsLocal blank)
          (rewrite-Leaves blank) at_path above cut in
      Stored-behind Mode.modify fs' (ground (arith, sound (open_entry Mode.modify) path, made))
        (changed-parent (rewrite blank) fs fs' path p name es (put_child name (file blank) es)
          at_path above cut made)
        (put_child-put_child name (file blank) (file (image e)) es) edited

  pub create_file :
      walk (p ++ name ∷ []) fs.root ≡ err enoent → Stored fs path p name es e Mode.create
  unfolding open_file
  create_file h =
      let free = no_child_of_walk p name fs.root enoent es above h in
      let es' = with_file fs Mode.create name blank es in
      let cut : create fs.place (file blank) name es ≡ ok es' =
        unfold create in ground (arith, free) in
      let (fs', made, edited) =
        changed-Edited fs path p name es es' (create-IsLocal fs.place (file blank))
          (create-Leaves fs.place (file blank)) at_path above cut in
      Stored-behind Mode.create fs' (ground (arith, sound (open_entry Mode.create) path, made))
        (changed-parent (create fs.place (file blank)) fs fs' path p name es es' at_path above cut
          made)
        (put_child-insert_child (fs.place name (names es)) name (file blank) (file (image e)) es
          free)
        edited
