-- ===== src/Dbms/Paths.antt =====
-- The path names that src/dbms/dbms.c builds with `sprintf`, and the sizes of the arrays it builds
-- them in.
pub mod Laws
use ds_lab_assignment.Prelude.{ℕ, ◌+◌, length, [], ◌∷◌, ◌++◌, Bytes, codes}
use ds_lab_assignment.Util.Codes.{db_dir, userdata_entry, pend_msgs_table, msg_id_max_str_size}
use ds_lab_assignment.Util.Types.{Entry, EntryType}
use ds_lab_assignment.Util.Decimal.{decimal}

abbrev pub table_name : Bytes → Bytes
table_name username = username ++ codes "-table"

-- "%s/%s-table"
unfoldable pub user_table_path : Bytes → Bytes
user_table_path username = db_dir ++ b'/' ∷ table_name username

-- "%s/%s-table/%s" and "%s/%s", in the table of a user
unfoldable pub in_user_table : Bytes → Bytes → Bytes
in_user_table username name = db_dir ++ b'/' ∷ (table_name username ++ b'/' ∷ name)

-- "%s/%s-table/%s/%u", of a pending message
unfoldable pub pend_msg_path : Bytes → ℕ → Bytes
pend_msg_path username id =
    db_dir ++ b'/' ∷ (table_name username ++ b'/' ∷ (pend_msgs_table ++ b'/' ∷ decimal id))

-- The path of an entry in `db_io_op_usr_ent`. A type that is neither is refused before.
unfoldable pub entry_path : Entry → Bytes
unfolding in_user_table pend_msg_path
entry_path e = elim e.type [
  | EntryType.ud ↦ in_user_table e.username userdata_entry
  | _ ↦ pend_msg_path e.username e.msg.id
]

-- `path_len` of `db_user_exists`
unfoldable pub user_exists_buffer : Bytes → ℕ
user_exists_buffer username = length db_dir + length username + 7

-- the array of `db_creat_usr_tbl` and `db_del_usr_tbl` for the table's path
unfoldable pub user_table_buffer : Bytes → ℕ
user_table_buffer username = length db_dir + length username + 8

-- the arrays of `db_creat_usr_tbl` for what stands in the table
unfoldable pub in_table_buffer : Bytes → Bytes → ℕ
unfolding user_table_path
in_table_buffer username name = length (user_table_path username) + length name + 2

-- the array of `db_get_pend_msg`
unfoldable pub pend_table_buffer : Bytes → ℕ
pend_table_buffer username = length db_dir + length username + length pend_msgs_table + 9

-- `entry_len` of `db_io_op_usr_ent`
unfoldable pub entry_buffer : Entry → ℕ
entry_buffer e = length db_dir + length e.username + 9 + (elim e.type [
  | EntryType.ud ↦ length userdata_entry
  | _ ↦ length pend_msgs_table + 1 + msg_id_max_str_size
])
