-- ===== src/Dbms/Readable.antt =====
-- READ of `db_io_op_usr_ent` of src/dbms/dbms.c where the calls that read do not fail, whatever other calls
-- do.
use ds_lab_assignment.Prelude.{◌≡◌, false, Bytes, arith}
use ds_lab_assignment.Util.Codes.{dbms_success, dbms_err_not_exists, userdata_entry}
use ds_lab_assignment.Util.Types.{Entry, EntryType, Mode}
use ds_lab_assignment.Dbms.Fs.{
  Fs, FilePath, image, file, enoent, open_entry, read_entry, components, ok, err, walk,
}
use ds_lab_assignment.Dbms.Paths.{entry_path, in_user_table, pend_msg_path}
use ds_lab_assignment.Dbms.Paths.Laws.{NoSlash, components-userdata, components-pend_msg_path}
use ds_lab_assignment.Dbms.Util.{open_file, fd, failed, read_entry_file}
use ds_lab_assignment.Dbms.Account.{data_at, msg_at}
use ds_lab_assignment.Dbms.Ops.{db_io_op_usr_ent}

-- Neither `open` nor `read` of the file fails.
pub record Readable (fs : Fs) (path : Bytes) : Type 0 where
  pub opens : fs.faulty (open_entry Mode.read) path ≡ false
  pub reads : fs.faulty read_entry path ≡ false

opened_stored :
    (fs : Fs) (path : Bytes) (p : FilePath) (given e : Entry)
    → Readable fs path
    → components path ≡ p
    → walk p fs.root ≡ ok (file (image e))
    → (open_file path Mode.read fs ≡ fd path fs)
      × (read_entry_file path given fs ≡ record { result = dbms_success; entry = e })
unfolding open_file read_entry_file
opened_stored fs path p given e r at stored =
    (ground (arith, at, stored, r.opens), ground (arith, at, stored, r.reads))

opened_missing :
    (fs : Fs) (path : Bytes) (p : FilePath)
    → Readable fs path
    → components path ≡ p
    → walk p fs.root ≡ err enoent
    → open_file path Mode.read fs ≡ failed enoent
unfolding open_file
opened_missing fs path p r at gone = ground (arith, at, gone, r.opens)

module _ (fs : Fs) (given : Entry) (plain : NoSlash given.username) where
  module _ (is_ud : given.type ≡ EntryType.ud)
      (r : Readable fs (in_user_table given.username userdata_entry)) where
    pub read_ud :
        (e : Entry)
        → walk (data_at given.username) fs.root ≡ ok (file (image e))
        → db_io_op_usr_ent given Mode.read fs ≡ record { result = dbms_success; entry = e; fs = fs }
    unfolding db_io_op_usr_ent entry_path
    read_ud e stored = ground (
      arith,
      is_ud,
      opened_stored fs (in_user_table given.username userdata_entry) (data_at given.username) given
          e r (components-userdata given.username plain) stored,
    )

    pub read_ud_missing :
        walk (data_at given.username) fs.root ≡ err enoent
        → db_io_op_usr_ent given Mode.read fs
          ≡ record { result = dbms_err_not_exists; entry = given; fs = fs }
    unfolding db_io_op_usr_ent entry_path
    read_ud_missing gone = ground (
      arith,
      is_ud,
      opened_missing fs (in_user_table given.username userdata_entry) (data_at given.username) r
          (components-userdata given.username plain) gone,
    )

  pub read_msg :
      (e : Entry)
      → given.type ≡ EntryType.p_msg
      → Readable fs (pend_msg_path given.username given.msg.id)
      → walk (msg_at given.username given.msg.id) fs.root ≡ ok (file (image e))
      → db_io_op_usr_ent given Mode.read fs ≡ record { result = dbms_success; entry = e; fs = fs }
  unfolding db_io_op_usr_ent entry_path
  read_msg e is_msg r stored = ground (
    arith,
    is_msg,
    opened_stored fs (pend_msg_path given.username given.msg.id)
        (msg_at given.username given.msg.id) given e r
        (components-pend_msg_path given.username given.msg.id plain) stored,
  )
