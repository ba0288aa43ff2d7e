-- ===== src/Services/Users/Race.antt =====
-- Two REGISTER requests of src/services.c at once: the database is used without a lock, so that the calls of
-- two service threads may alternate.
use ds_lab_assignment.Prelude.{
  ◌≡◌, ◌∙◌, refl, Option-cases, inl, inr, true, [], ◌∷◌, ◌++◌, Bytes, arith,
}
use ds_lab_assignment.Util.Codes.{db_dir, dbms_err_any}
use ds_lab_assignment.Util.Types.{Entry}
use ds_lab_assignment.Dbms.Fs.{
  Fs, Place, FilePath, Node, file, change, Entries, end, dir, enoent, eexist, err, ok, open_dir,
  make_dir, create, walk, child,
}
use ds_lab_assignment.Dbms.Paths.{table_name, user_table_path}
use ds_lab_assignment.Dbms.Paths.Laws.{NoSlash, components-user_table_path}
use ds_lab_assignment.Dbms.Remove.Laws.{NoFaults}
use ds_lab_assignment.Dbms.Util.{
  opendir, behind_opendir, make_directory, open_directory, no_directory,
}
use ds_lab_assignment.Dbms.Account.{Account, Unknown, SameOthers}
use ds_lab_assignment.Dbms.Ops.{user_table_opened, db_creat_usr_tbl}
use ds_lab_assignment.Dbms.Tables.{db_creat_usr_tbl_lem}
use ds_lab_assignment.Services.World.{World, Stack}
use ds_lab_assignment.Services.Users.{new_user, registered}

-- REGISTER of one name in two threads, behind the names: both threads call `opendir` for the user's table
-- before either goes on. `w` and `v` are what the two clients' sockets do; `v` has the database that the
-- first thread leaves.
unfoldable pub register_both : Stack → Stack → Bytes → World → World → World × World
unfolding opendir behind_opendir user_table_opened registered
register_both one other name w v =
    let path = user_table_path name in
    let found = opendir path w.fs in
    let first = user_table_opened (new_user one name) (behind_opendir true true path found w.fs) in
    let second =
      user_table_opened (new_user other name) (behind_opendir true true path found first.1) in
    (registered first w, registered second v)

opendir_missing :
    (fs : Fs) (name : Bytes)
    → NoFaults fs.faulty
    → NoSlash name
    → Unknown fs name
    → opendir (user_table_path name) fs ≡ err enoent
unfolding opendir
opendir_missing fs name sound plain a =
    ground (
      arith,
      sound open_dir (user_table_path name),
      components-user_table_path name plain,
      a.absent,
    )

-- `mkdir` of what is there fails.
create_taken :
    (place : Place) (node : Node) (p : FilePath) (name : Bytes) (t n : Node)
    → walk (p ++ name ∷ []) t ≡ ok n
    → change (create place node) (p ++ name ∷ []) t ≡ err eexist
unfolding walk change create
create_taken place node [] name (file d) n h = absurd (cc)
create_taken place node [] name (dir es) n h = elim (Option-cases (child name es)) [
  | inl gone ↦ absurd (ground (arith, gone, h))
  | inr (m, here) ↦ ground (arith, here)
]
create_taken place node (a ∷ p) name (file d) n h = absurd (cc)
create_taken place node (a ∷ []) name (dir es) n h = elim (Option-cases (child a es)) [
  | inl gone ↦ absurd (ground (arith, gone, h))
  | inr (m, here) ↦
      let below = create_taken place node [] name m n (ground (arith, here, h)) in
      ground (arith, here, below)
]
create_taken place node (a ∷ b ∷ p) name (dir es) n h = elim (Option-cases (child a es)) [
  | inl gone ↦ absurd (ground (arith, gone, h))
  | inr (m, here) ↦
      let below = create_taken place node (b ∷ p) name m n (ground (arith, here, h)) in
      ground (arith, here, below)
]

make_directory_taken :
    (fs : Fs) (name : Bytes) (e : Entry) (mine : Entries)
    → NoFaults fs.faulty
    → NoSlash name
    → Account fs name e mine
    → make_directory (user_table_path name) fs ≡ no_directory dbms_err_any fs
unfolding make_directory
make_directory_taken fs name e mine sound plain a =
    let taken =
      create_taken fs.place (dir end) (db_dir ∷ []) (table_name name) fs.root (dir a.table_entries)
        a.table in
    ground
      (arith, sound make_dir (user_table_path name), components-user_table_path name plain, taken)

-- the first thread goes on as if it were alone
first_alone :
    (e : Entry) (fs : Fs)
    → user_table_opened e (
        behind_opendir true true
          (user_table_path e.username)
          (opendir (user_table_path e.username) fs)
          fs)
      ≡ db_creat_usr_tbl e fs
unfolding db_creat_usr_tbl open_directory
first_alone e fs = refl

-- the second finds a directory that it takes for missing
second_late :
    (e old : Entry) (mine : Entries) (fs fs' : Fs)
    → opendir (user_table_path e.username) fs ≡ err enoent
    → NoFaults fs'.faulty
    → NoSlash e.username
    → Account fs' e.username old mine
    → user_table_opened e (
        behind_opendir true true
          (user_table_path e.username)
          (opendir (user_table_path e.username) fs)
          fs')
      ≡ (dbms_err_any, fs')
unfolding user_table_opened behind_opendir
second_late e old mine fs fs' missing sound plain a =
    ground (arith, missing, make_directory_taken fs' e.username old mine sound plain a)

-- No call of the file system fails, and the name has no slash and no account. Two clients REGISTER it at
-- once, and both threads look for the user's table before either makes it. Both clients are answered 0; the
-- account is that of the thread that made the table first, and nothing else of the second request is left
-- in the database. Nothing changes in the tables of other users.
pub register_both_lem :
    (one other : Stack) (name : Bytes) (w v : World)
    → NoFaults w.fs.faulty
    → NoSlash name
    → Unknown w.fs name
    → w.writable ≡ true
    → v.writable ≡ true
    → (fs' : Fs) × (register_both one other name w v ≡ (
      record w { fs = fs'; replies = w.replies ++ (0 ∷ []) ∷ [] },
      record v { fs = fs'; replies = v.replies ++ (0 ∷ []) ∷ [] },
    ))
      × Account fs' name (new_user one name) end
      × SameOthers name w.fs fs'
unfolding register_both registered
register_both_lem one other name w v sound plain a can may =
    let e = new_user one name in
    let late = new_user other name in
    let (fs', made, account, others, sound') = db_creat_usr_tbl_lem w.fs sound e plain refl a in
    let first = first_alone e w.fs ∙ made in
    let second =
      second_late late e end w.fs fs' (opendir_missing w.fs name sound plain a) sound' plain
        account in
    (fs', ground (arith, first, second, can, may), account, others)
