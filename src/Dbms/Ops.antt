-- ===== src/Dbms/Ops.antt =====
-- src/dbms/dbms.c: the functions that the server calls. A struct that a function fills through a
-- pointer is given back beside the result.
pub mod Laws
use ds_lab_assignment.Prelude.{
  if◌then◌else◌, Bool, true, false, int_eq, [], ◌∷◌, ◌++◌, Option, none, some, ℤ, is_neg, Bytes,
}
use ds_lab_assignment.Util.Codes.{
  gen_err_inv_args, dbms_success, dbms_err_any, dbms_err_not_exists, dbms_err_exists, c_true,
  c_false, db_dir, userdata_entry, pend_msgs_table,
}
use ds_lab_assignment.Util.Types.{Message, Entry, EntryType, Mode}
use ds_lab_assignment.Util.StrToNum.{CastType, Cast, str_to_num}
use ds_lab_assignment.Dbms.Fs.{Fs, Entries, end, entry, enoent}
use ds_lab_assignment.Dbms.Paths.{user_table_path, in_user_table, entry_path}
use ds_lab_assignment.Dbms.Util.{
  Opened, fd, failed, inv_args, open_file, Directory, open_directory, Reading, read_entry_file,
  write_entry_file,
}
use ds_lab_assignment.Dbms.Remove.{remove_recursive}

-- The result of an operation on an entry, the struct after it, and the system after it.
pub record IoResult : Type 0 where
  pub result : ℤ
  pub entry : Entry
  pub fs : Fs

abbrev pub refused : ℤ → Entry → Fs → IoResult
refused code e fs = record { result = code; entry = e; fs = fs }

-- READ, through the opened file
unfoldable pub read_opened : Entry → Opened → Fs → IoResult
read_opened e (fd path fs') fs =
    let r = read_entry_file path e fs' in record { result = r.result; entry = r.entry; fs = fs' }
read_opened e (failed enoent) fs = refused dbms_err_not_exists e fs
read_opened e (failed _) fs = refused dbms_err_any e fs
read_opened e inv_args fs = refused dbms_err_any e fs

-- CREATE and MODIFY, through the opened file
unfoldable pub write_opened : Entry → Opened → Fs → IoResult
write_opened e (fd path fs') fs =
    let (code, fs'') = write_entry_file path e fs' in record { result = code; entry = e; fs = fs'' }
write_opened e (failed enoent) fs = refused dbms_err_not_exists e fs
write_opened e (failed _) fs = refused dbms_err_any e fs
write_opened e inv_args fs = refused dbms_err_any e fs

-- DELETE
unfoldable pub delete_entry : Entry → Fs → IoResult
delete_entry e fs =
    let (code, fs') = remove_recursive (entry_path e) fs in
    record { result = if is_neg code then code else dbms_success; entry = e; fs = fs' }

-- `db_io_op_usr_ent` behind the check of the entry's type
unfoldable pub io_op_checked : Mode → Entry → Fs → IoResult
unfolding read_opened write_opened delete_entry
io_op_checked Mode.delete e fs = delete_entry e fs
io_op_checked Mode.read e fs = read_opened e (open_file (entry_path e) Mode.read fs) fs
io_op_checked Mode.create e fs = write_opened e (open_file (entry_path e) Mode.create fs) fs
io_op_checked Mode.modify e fs = write_opened e (open_file (entry_path e) Mode.modify fs) fs
io_op_checked _ e fs = refused gen_err_inv_args e fs

-- `db_io_op_usr_ent`
unfoldable pub db_io_op_usr_ent : Entry → Mode → Fs → IoResult
unfolding io_op_checked
db_io_op_usr_ent e mode fs = elim e.type [
  | EntryType.other ↦ refused gen_err_inv_args e fs
  | _ ↦ io_op_checked mode e fs
]

-- `db_user_exists`: TRUE, FALSE or an error
unfoldable pub db_user_exists : Bytes → Fs → ℤ
db_user_exists username fs =
    let result = (open_directory (user_table_path username) Mode.read fs).result in
    if int_eq result dbms_err_not_exists
    then c_false
    else if int_eq result dbms_success
    then c_true
    else result

-- `db_init_db`
unfoldable pub db_init_db : Fs → ℤ × Fs
db_init_db fs =
    let d = open_directory db_dir Mode.overwrite fs in
    (if is_neg d.result then dbms_err_any else dbms_success, d.fs)

-- `db_empty_db`
unfoldable pub db_empty_db : Fs → ℤ × Fs
db_empty_db fs = remove_recursive db_dir fs

-- `db_del_usr_tbl`
unfoldable pub db_del_usr_tbl : Bytes → Fs → ℤ × Fs
db_del_usr_tbl username fs = remove_recursive (user_table_path username) fs

-- the end of `db_creat_usr_tbl`: the pending messages table
unfoldable pub create_pend_table : Entry → Fs → ℤ × Fs
create_pend_table e fs =
    let d = open_directory (in_user_table e.username pend_msgs_table) Mode.create fs in
    (if is_neg d.result then dbms_err_any else dbms_success, d.fs)

-- `db_creat_usr_tbl` behind the creation of the user's directory
unfoldable pub fill_user_table : Entry → Fs → ℤ × Fs
unfolding create_pend_table
fill_user_table e fs =
    let r = db_io_op_usr_ent e Mode.create fs in
    let rest = create_pend_table e r.fs in if is_neg r.result then (dbms_err_any, r.fs) else rest

-- `db_creat_usr_tbl` behind the call of `open_directory`
unfoldable pub user_table_opened : Entry → Directory → ℤ × Fs
unfolding fill_user_table
user_table_opened e d =
    if int_eq d.result dbms_err_exists
    then (dbms_err_exists, d.fs)
    else if is_neg d.result
    then (dbms_err_any, d.fs)
    else fill_user_table e d.fs

-- `db_creat_usr_tbl`
unfoldable pub db_creat_usr_tbl : Entry → Fs → ℤ × Fs
unfolding user_table_opened
db_creat_usr_tbl e fs =
    user_table_opened e (open_directory (user_table_path e.username) Mode.create fs)

-- The entry with the message ID that `str_to_num` wrote through the pointer.
unfoldable pub with_id : Cast → Entry → Entry
with_id c e = elim c.number [ none ↦ e | some id ↦ record e { msg = record e.msg { id = id } } ]

-- The loop of `db_get_pend_msg`: it ends at the first entry. The result of reading that entry is
-- not looked at.
unfoldable pub first_pending : Entry → Entries → Fs → ℤ × Entry
unfolding with_id
first_pending e end fs = (dbms_err_not_exists, e)
first_pending e (entry name node rest) fs =
    let c = str_to_num name CastType.uint in
    if is_neg c.result
    then (dbms_err_any, e)
    else (dbms_success, (db_io_op_usr_ent (with_id c e) Mode.read fs).entry)

-- `db_get_pend_msg`: it changes the given entry, and no file.
unfoldable pub db_get_pend_msg : Entry → Fs → ℤ × Entry
unfolding first_pending
db_get_pend_msg e fs = elim e.type [
  | EntryType.p_msg ↦
      let d = open_directory (in_user_table e.username pend_msgs_table) Mode.read fs in
      if is_neg d.result then (dbms_err_any, e) else first_pending e d.entries d.fs
  | _ ↦ (gen_err_inv_args, e)
]
