-- ===== src/Dbms/Remove.antt =====
-- `remove_recursive` of src/dbms/dbmsUtil.c, on the part of the tree that its path leads to.
pub mod Laws
use ds_lab_assignment.Prelude.{
  if◌then◌else◌, Bool, true, false, [], ◌∷◌, ◌++◌, Option, none, some, ℤ, pos, negsuc, is_neg,
  Bytes,
}
use ds_lab_assignment.Util.Codes.{gen_success, gen_err_any, dbms_err_any, dbms_err_not_exists}
use ds_lab_assignment.Util.Check.{check_rm_error}
use ds_lab_assignment.Dbms.Fs.{
  Fs, FileData, Node, file, dir, Entries, end, entry, enoent, ok, err, Syscall, open_dir,
  remove_entry, components, walk, settle,
}
use ds_lab_assignment.Dbms.Util.{changed}

-- The result, and what is left of the node.
pub record Removal : Type 0 where
  pub result : ℤ
  pub left : Option Node

abbrev removed : Removal
removed = record { result = gen_success; left = none }

abbrev kept : ℤ → Node → Removal
kept code node = record { result = code; left = some node }

module _ (faulty : Syscall → Bytes → Bool) where
  -- the library's `remove`
  unfoldable pub remove : Bytes → Node → Removal
  remove path (file d) = if faulty remove_entry path then kept gen_err_any (file d) else removed
  remove path (dir end) = if faulty remove_entry path then kept gen_err_any (dir end) else removed
  remove path (dir (entry name node rest)) = kept gen_err_any (dir (entry name node rest))

  -- `remove` of the directory behind the loop, unless the loop has stopped
  unfoldable pub finish : Bytes → ℤ × Entries → Removal
  unfolding remove
  finish path (code, left) =
      check_rm_error code (kept dbms_err_any (dir left)) (remove path (dir left))

  -- the loop has gone on behind an entry that is gone, or stopped at it
  unfoldable pub after_entry : Bytes → Removal → Entries → ℤ × Entries → ℤ × Entries
  after_entry name r rest others = elim r.left [
    | none ↦ others
    | some node ↦ if is_neg r.result then (r.result, entry name node rest) else others
  ]

  -- `remove_recursive` of a node that is there, and the loop through its entries: each is removed,
  -- recursively if it is a directory, until one fails.
  unfoldable mutual
    unfolding remove finish after_entry

    pub remove_node : Bytes → Node → Removal
    remove_node path (file d) = remove path (file d)
    remove_node path (dir es) =
        if faulty open_dir path then remove path (dir es) else finish path (remove_entries path es)

    pub remove_entries : Bytes → Entries → ℤ × Entries
    remove_entries path end = (gen_success, end)
    remove_entries path (entry name node rest) =
        after_entry name (remove_node (path ++ b'/' ∷ name) node) rest (remove_entries path rest)

-- `remove_recursive`
unfoldable pub remove_recursive : Bytes → Fs → ℤ × Fs
unfolding changed
remove_recursive path fs = elim (walk (components path) fs.root) [
  | ok node ↦
      let r = remove_node fs.faulty path node in
      elim (changed fs (settle r.left) path) [ ok fs' ↦ (r.result, fs') | err _ ↦ (r.result, fs) ]
  | err enoent ↦ (if fs.faulty open_dir path then gen_err_any else dbms_err_not_exists, fs)
  | err _ ↦ (gen_err_any, fs)
]
