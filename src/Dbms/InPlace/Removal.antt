-- ===== src/Dbms/InPlace/Removal.antt =====
-- What `remove_recursive` of src/dbms/dbmsUtil.c leaves, if it stops half way, stays in place.
use ds_lab_assignment.Prelude.{Bool, [], ◌∷◌, ◌++◌, Option, none, some, ℤ, is_neg, Bytes, if_elim}
use ds_lab_assignment.Dbms.Fs.{
  FilePath, Node, file, dir, Entries, end, entry, Syscall, open_dir, remove_entry,
}
use ds_lab_assignment.Dbms.Remove.{
  Removal, remove, finish, after_entry, remove_node, remove_entries,
}
use ds_lab_assignment.Dbms.InPlace.{Placed, PlacedIn}

abbrev pub PlacedLeft : FilePath → Option Node → Type 0
PlacedLeft p none = Unit
PlacedLeft p (some n) = Placed p n

module _ (faulty : Syscall → Bytes → Bool) where
  remove-PlacedLeft :
      (path : Bytes) (p : FilePath) (n : Node)
      → Placed p n
      → PlacedLeft p (remove faulty path n).left
  unfolding remove
  remove-PlacedLeft path p (file d) h =
      if_elim (λ (r : Removal). PlacedLeft p r.left) (faulty remove_entry path) (λ _. h) (λ _. tt)
  remove-PlacedLeft path p (dir end) h =
      if_elim (λ (r : Removal). PlacedLeft p r.left) (faulty remove_entry path) (λ _. tt) (λ _. tt)
  remove-PlacedLeft path p (dir (entry name n rest)) h = h

  finish-PlacedLeft :
      (path : Bytes) (p : FilePath) (r : ℤ × Entries)
      → PlacedIn p r.1
      → PlacedLeft p (finish faulty path r).left
  unfolding finish
  finish-PlacedLeft path p r h =
      if_elim (λ (r : Removal). PlacedLeft p r.left) (is_neg r.0) (λ _. h)
        λ _. remove-PlacedLeft path p (dir r.1) h

  after_entry-PlacedIn :
      (p : FilePath) (name : Bytes) (r : Removal) (rest : Entries) (others : ℤ × Entries)
      → PlacedLeft (p ++ name ∷ []) r.left
      → PlacedIn p rest
      → PlacedIn p others.1
      → PlacedIn p (after_entry faulty name r rest others).1
  unfolding after_entry
  after_entry-PlacedIn p name r rest others here there behind = go r.left here
    where
      go :
          (left : Option Node)
          → PlacedLeft (p ++ name ∷ []) left
          → PlacedIn p (after_entry faulty name (record r { left = left }) rest others).1
      go none here = behind
      go (some n) here =
          if_elim (λ (x : ℤ × Entries). PlacedIn p x.1) (is_neg r.result) (λ _. (here, there))
            λ _. behind

  mutual
    unfolding remove_node

    pub remove_node-PlacedLeft :
        (path : Bytes) (p : FilePath) (n : Node)
        → Placed p n
        → PlacedLeft p (remove_node faulty path n).left
    remove_node-PlacedLeft path p (file d) h = remove-PlacedLeft path p (file d) h
    remove_node-PlacedLeft path p (dir es) h =
        if_elim (λ (r : Removal). PlacedLeft p r.left) (faulty open_dir path)
          (λ _. remove-PlacedLeft path p (dir es) h)
          λ _.
            finish-PlacedLeft path p (remove_entries faulty path es)
              (remove_entries-PlacedIn path p es h)

    remove_entries-PlacedIn :
        (path : Bytes) (p : FilePath) (es : Entries)
        → PlacedIn p es
        → PlacedIn p (remove_entries faulty path es).1
    remove_entries-PlacedIn path p end h = tt
    remove_entries-PlacedIn path p (entry name n rest) (here, there) =
        after_entry-PlacedIn p name (remove_node faulty (path ++ b'/' ∷ name) n) rest
          (remove_entries faulty path rest)
          (remove_node-PlacedLeft (path ++ b'/' ∷ name) (p ++ name ∷ []) n here) there
          (remove_entries-PlacedIn path p rest there)
