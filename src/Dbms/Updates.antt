-- ===== src/Dbms/Updates.antt =====
-- A user's entry written anew, and a pending message stored, by `db_io_op_usr_ent` of
-- src/dbms/dbms.c: what becomes of the account.
use mathlib.Core.Path.{subst}
use ds_lab_assignment.Prelude.{ℕ, ◌≡◌, refl, ◌∙◌, [], ◌∷◌, none, Bytes, str_eq, arith}
use ds_lab_assignment.Util.Codes.{dbms_success, db_dir, userdata_entry, pend_msgs_table}
use ds_lab_assignment.Util.Types.{Entry, EntryType, Mode}
use ds_lab_assignment.Util.Decimal.{decimal}
use ds_lab_assignment.Dbms.Fs.{
  Fs, Place, insert_new, image, file, dir, Entries, enoent, ok, err, walk, child, put_child,
}
use ds_lab_assignment.Dbms.Fs.Laws.{Apart, walk-append}
use ds_lab_assignment.Dbms.Paths.{table_name}
use ds_lab_assignment.Dbms.Paths.Laws.{NoSlash}
use ds_lab_assignment.Dbms.Remove.Laws.{NoFaults}
use ds_lab_assignment.Dbms.Edited.{NoFaults-Edited}
use ds_lab_assignment.Dbms.Account.{
  table_at, data_at, pend_at, msg_at, Account, SameOthers, Edited-SameOthers,
}
use ds_lab_assignment.Dbms.Ops.{IoResult, db_io_op_usr_ent}
use ds_lab_assignment.Dbms.Ops.Laws.{modify_userdata, create_pend_msg}
use ds_lab_assignment.Dbms.Tables.{data-pend-Apart}

-- An operation that succeeded and left the account of `u` as `e` and `pend`, with nothing changed
-- in the tables of other users.
pub record Updated (fs : Fs) (u : Bytes) (e : Entry) (pend : Entries) (given : Entry) (r : IoResult)
    : Type 0 where
  pub after : Fs
  pub result : r ≡ record { result = dbms_success; entry = given; fs = after }
  pub account : Account after u e pend
  pub others : SameOthers u fs after
  pub sound : NoFaults after.faulty
  pub place : after.place ≡ fs.place

-- MODIFY of a user's entry
pub modify_Updated :
    (fs : Fs) (e old : Entry) (pend : Entries)
    → NoFaults fs.faulty
    → NoSlash e.username
    → e.type ≡ EntryType.ud
    → Account fs e.username old pend
    → Updated fs e.username e pend e (db_io_op_usr_ent e Mode.modify fs)
modify_Updated fs e old pend sound name is_ud a =
    let put = modify_userdata fs sound e name is_ud old pend a in
    let u = e.username in
    let (tables, db) =
      put.edited.above (db_dir ∷ []) (userdata_entry ∷ []) (table_name u) a.tables refl a.db in
    record {
      after = put.after;
      result = put.result;
      account = record {
        tables = tables;
        db = db;
        table_entries = put_child userdata_entry (file (image e)) a.table_entries;
        table = put.entries;
        stored = put.edited.here;
        pending = put.edited.apart (pend_at u) (data-pend-Apart u) ∙ a.pending;
      };
      others = Edited-SameOthers u (userdata_entry ∷ []) put.edited;
      sound = NoFaults-Edited put.edited sound;
      place = put.edited.place;
    }

msg-data-Apart : (u : Bytes) (id : ℕ) → Apart (msg_at u id) (data_at u)
unfolding str_eq
msg-data-Apart u id = λ _ _ same. absurd (cc)

-- CREATE of a pending message under a free ID
pub store_Updated :
    (fs : Fs) (m e : Entry) (pend : Entries) {place : Place}
    → fs.place ≡ place
    → NoFaults fs.faulty
    → NoSlash m.username
    → m.type ≡ EntryType.p_msg
    → Account fs m.username e pend
    → child (decimal m.msg.id) pend ≡ none
    → Updated fs m.username e
        (insert_new place (decimal m.msg.id) (file (image m)) pend)
        m
        (db_io_op_usr_ent m Mode.create fs)
store_Updated fs m e pend same sound name is_msg a free =
    let u = m.username in
    let at_end : walk (msg_at u m.msg.id) fs.root ≡ err enoent =
      walk-append (pend_at u) (decimal m.msg.id ∷ []) fs.root (dir pend) a.pending
      ∙ (unfold walk in ground (arith, free)) in
    let put = create_pend_msg fs sound m name is_msg pend a.pending at_end in
    let rest = pend_msgs_table ∷ decimal m.msg.id ∷ [] in
    let (tables, db) = put.edited.above (db_dir ∷ []) rest (table_name u) a.tables refl a.db in
    let (tbl, table) =
      put.edited.above (table_at u) (decimal m.msg.id ∷ []) pend_msgs_table a.table_entries refl
        a.table in
    record {
      after = put.after;
      result = put.result;
      account = record {
        tables = tables;
        db = db;
        table_entries = tbl;
        table = table;
        stored = put.edited.apart (data_at u) (msg-data-Apart u m.msg.id) ∙ a.stored;
        pending =
            subst
              (λ (at : Place).
                walk (pend_at u) put.after.root
                ≡ ok (dir (insert_new at (decimal m.msg.id) (file (image m)) pend)))
              same put.entries;
      };
      others = Edited-SameOthers u rest put.edited;
      sound = NoFaults-Edited put.edited sound;
      place = put.edited.place;
    }
