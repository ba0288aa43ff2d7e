-- ===== src/Dbms/Ops/Laws.antt =====
-- `db_io_op_usr_ent` of src/dbms/dbms.c on the entries of a user, where no call fails by an error of
-- the system.
use ds_lab_assignment.Prelude.{◌≡◌, [], ◌∷◌, ◌++◌, some, Bytes, arith}
use ds_lab_assignment.Util.Codes.{dbms_success, dbms_err_not_exists, userdata_entry}
use ds_lab_assignment.Util.Types.{Entry, EntryType, Mode}
use ds_lab_assignment.Util.Decimal.{decimal}
use ds_lab_assignment.Dbms.Fs.{Fs, FilePath, image, file, dir, Entries, enoent, ok, err, walk}
use ds_lab_assignment.Dbms.Paths.{entry_path, in_user_table, pend_msg_path}
use ds_lab_assignment.Dbms.Paths.Laws.{NoSlash, components-userdata, components-pend_msg_path}
use ds_lab_assignment.Dbms.Remove.Laws.{NoFaults}
use ds_lab_assignment.Dbms.Edited.{Edited}
use ds_lab_assignment.Dbms.Files.{with_file, read_file, read_missing, modify_file, create_file}
use ds_lab_assignment.Dbms.Account.{table_at, data_at, pend_at, msg_at, Account}
use ds_lab_assignment.Dbms.Ops.{IoResult, db_io_op_usr_ent}

-- An operation that succeeded, left the struct as it is, and put it at the path.
pub record Put (fs : Fs) (e : Entry) (p : FilePath) (name : Bytes) (es : Entries) (mode : Mode)
    (r : IoResult) : Type 0 where
  pub after : Fs
  pub result : r ≡ record { result = dbms_success; entry = e; fs = after }
  pub entries : walk p after.root ≡ ok (dir (with_file fs mode name (image e) es))
  pub edited : Edited fs after (p ++ name ∷ []) (some (file (image e)))

module _ (fs : Fs) (sound : NoFaults fs.faulty) (e : Entry) (name : NoSlash e.username) where
  module _ (is_ud : e.type ≡ EntryType.ud) where
    -- READ of a user's entry
    pub read_userdata :
        (stored : Entry)
        → walk (data_at e.username) fs.root ≡ ok (file (image stored))
        → db_io_op_usr_ent e Mode.read fs
          ≡ record { result = dbms_success; entry = stored; fs = fs }
    unfolding db_io_op_usr_ent entry_path
    read_userdata stored w = ground (
      arith,
      read_file fs sound (in_user_table e.username userdata_entry) (table_at e.username)
          userdata_entry (components-userdata e.username name) e stored w,
    )

    pub read_userdata_missing :
        walk (data_at e.username) fs.root ≡ err enoent
        → db_io_op_usr_ent e Mode.read fs
          ≡ record { result = dbms_err_not_exists; entry = e; fs = fs }
    unfolding db_io_op_usr_ent entry_path
    read_userdata_missing w = ground (
      arith,
      read_missing fs sound (in_user_table e.username userdata_entry) (table_at e.username)
          userdata_entry (components-userdata e.username name) w,
    )

    -- MODIFY of a user's entry
    pub modify_userdata :
        (old : Entry) (pend : Entries) (a : Account fs e.username old pend)
        → Put fs e
            (table_at e.username)
            userdata_entry
            a.table_entries
            Mode.modify
            (db_io_op_usr_ent e Mode.modify fs)
    unfolding db_io_op_usr_ent entry_path
    modify_userdata old _ a =
        let s =
          modify_file fs sound (in_user_table e.username userdata_entry) (table_at e.username)
            userdata_entry (components-userdata e.username name) e a.table_entries a.table
            (image old) a.stored in
        record {
          after = s.after;
          result = ground (arith, s.was_opened, s.written);
          entries = s.entries;
          edited = s.edited;
        }

    -- CREATE of a user's entry, where the table is there without one
    pub create_userdata :
        (tbl : Entries)
        → walk (table_at e.username) fs.root ≡ ok (dir tbl)
        → walk (data_at e.username) fs.root ≡ err enoent
        → Put fs e
            (table_at e.username)
            userdata_entry
            tbl
            Mode.create
            (db_io_op_usr_ent e Mode.create fs)
    unfolding db_io_op_usr_ent entry_path
    create_userdata tbl w absent =
        let s =
          create_file fs sound (in_user_table e.username userdata_entry) (table_at e.username)
            userdata_entry (components-userdata e.username name) e tbl w absent in
        record {
          after = s.after;
          result = ground (arith, s.was_opened, s.written);
          entries = s.entries;
          edited = s.edited;
        }

  module _ (is_msg : e.type ≡ EntryType.p_msg) where
    -- CREATE of a pending message, under an ID that is free
    pub create_pend_msg :
        (pend : Entries)
        → walk (pend_at e.username) fs.root ≡ ok (dir pend)
        → walk (msg_at e.username e.msg.id) fs.root ≡ err enoent
        → Put fs e
            (pend_at e.username)
            (decimal e.msg.id)
            pend
            Mode.create
            (db_io_op_usr_ent e Mode.create fs)
    unfolding db_io_op_usr_ent entry_path
    create_pend_msg pend w free =
        let s =
          create_file fs sound (pend_msg_path e.username e.msg.id) (pend_at e.username)
            (decimal e.msg.id) (components-pend_msg_path e.username e.msg.id name) e pend w free in
        record {
          after = s.after;
          result = ground (arith, s.was_opened, s.written);
          entries = s.entries;
          edited = s.edited;
        }

    -- READ of a pending message
    pub read_pend_msg :
        (stored : Entry)
        → walk (msg_at e.username e.msg.id) fs.root ≡ ok (file (image stored))
        → db_io_op_usr_ent e Mode.read fs
          ≡ record { result = dbms_success; entry = stored; fs = fs }
    unfolding db_io_op_usr_ent entry_path
    read_pend_msg stored w = ground (
      arith,
      read_file fs sound (pend_msg_path e.username e.msg.id) (pend_at e.username) (decimal e.msg.id)
          (components-pend_msg_path e.username e.msg.id name) e stored w,
    )
