-- ===== src/Dbms/Remove/Laws.antt =====
-- `remove_recursive` of src/dbms/dbmsUtil.c removes the whole subtree, or says that it did not.
use ds_lab_assignment.Prelude.{◌≡◌, refl, Bool, false, ◌∷◌, ◌++◌, none, Bytes, arith}
use ds_lab_assignment.Util.Codes.{gen_success}
use ds_lab_assignment.Dbms.Fs.{
  Node, file, dir, Entries, end, entry, Syscall, remove_entry, open_dir,
}
use ds_lab_assignment.Dbms.Remove.{remove_node, remove_entries}

-- No call fails by an error of the system.
abbrev pub NoFaults : (Syscall → Bytes → Bool) → Type 0
NoFaults faulty = (call : Syscall) (path : Bytes) → faulty call path ≡ false

module _ {faulty : Syscall → Bytes → Bool} (sound : NoFaults faulty) where
  mutual
    unfolding remove_node

    pub remove_node_lem :
        (path : Bytes) (node : Node)
        → remove_node faulty path node ≡ record { result = gen_success; left = none }
    remove_node_lem path (file d) = ground (arith, sound remove_entry path)
    remove_node_lem path (dir es) =
        ground (arith, sound open_dir path, sound remove_entry path, remove_entries_lem path es)

    remove_entries_lem :
        (path : Bytes) (es : Entries) → remove_entries faulty path es ≡ (gen_success, end)
    remove_entries_lem path end = refl
    remove_entries_lem path (entry name node rest) =
        ground (arith, remove_node_lem (path ++ b'/' ∷ name) node, remove_entries_lem path rest)
