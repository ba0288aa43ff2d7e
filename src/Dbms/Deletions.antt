-- ===== src/Dbms/Deletions.antt =====
-- A pending message deleted by `db_io_op_usr_ent`, and the first one found by `db_get_pend_msg`, of
-- src/dbms/dbms.c.
use ds_lab_assignment.Prelude.{
  ℕ, ◌^◌, ◌<◌, ◌≡◌, refl, ◌∙◌, [], ◌∷◌, none, some, Bytes, str_eq, arith, str_eq_refl,
}
use ds_lab_assignment.Util.Codes.{dbms_success, db_dir, pend_msgs_table}
use ds_lab_assignment.Util.Types.{Entry, EntryType, Mode}
use ds_lab_assignment.Util.Decimal.{decimal}
use ds_lab_assignment.Util.StrToNum.Laws.{str_to_num-decimal}
use ds_lab_assignment.Dbms.Fs.{
  Fs, image, file, dir, Entries, end, entry, ok, walk, child, drop_child, settle,
}
use ds_lab_assignment.Dbms.Fs.Laws.{Apart, walk-append, settle-IsLocal, settle-Leaves}
use ds_lab_assignment.Dbms.Paths.{table_name, entry_path, pend_msg_path, in_user_table}
use ds_lab_assignment.Dbms.Paths.Laws.{NoSlash, components-pend_msg_path, components-pend_table}
use ds_lab_assignment.Dbms.Remove.{remove_recursive}
use ds_lab_assignment.Dbms.Remove.Laws.{NoFaults, remove_node_lem}
use ds_lab_assignment.Dbms.Edited.{Edited, NoFaults-Edited, changed-Edited, changed-parent}
use ds_lab_assignment.Dbms.Directories.{open_there}
use ds_lab_assignment.Dbms.Account.{table_at, data_at, pend_at, msg_at, Account, Edited-SameOthers}
use ds_lab_assignment.Dbms.Ops.{db_io_op_usr_ent, db_get_pend_msg}
use ds_lab_assignment.Dbms.Ops.Laws.{read_pend_msg}
use ds_lab_assignment.Dbms.Updates.{Updated}

-- no deletion of a message touches a user's entry, the same user's or another's
pub msg-anyone-Apart : (u v : Bytes) (id : ℕ) → Apart (msg_at u id) (data_at v)
unfolding str_eq
msg-anyone-Apart u v id = λ _ _ same. absurd (cc)

pub drop_child-none : (name : Bytes) (es : Entries) → child name es ≡ none → drop_child name es ≡ es
unfolding child drop_child
drop_child-none name end h = refl
drop_child-none name (entry other node rest) h = ground (arith, drop_child-none name rest)

module _ (fs : Fs) (m e : Entry) (pend : Entries) (sound : NoFaults fs.faulty)
    (name : NoSlash m.username) (is_msg : m.type ≡ EntryType.p_msg)
    (a : Account fs m.username e pend) where
  abbrev u : Bytes
  u = m.username

  -- DELETE of a pending message that is there
  pub delete_Updated :
      (node : Entry)
      → child (decimal m.msg.id) pend ≡ some (file (image node))
      → (r : Updated fs m.username e
          (drop_child (decimal m.msg.id) pend)
          m
          (db_io_op_usr_ent m Mode.delete fs))
        × Edited fs r.after (msg_at m.username m.msg.id) none
  unfolding db_io_op_usr_ent entry_path remove_recursive
  delete_Updated node here =
      let path = pend_msg_path u m.msg.id in
      let at = components-pend_msg_path u m.msg.id name in
      let at_msg : walk (msg_at u m.msg.id) fs.root ≡ ok (file (image node)) =
        walk-append (pend_at u) (decimal m.msg.id ∷ []) fs.root (dir pend) a.pending
        ∙ (unfold walk in ground (arith, here)) in
      let cut : settle none (decimal m.msg.id) pend ≡ ok (drop_child (decimal m.msg.id) pend) =
        unfold settle in refl in
      let (fs', made, edited) =
        changed-Edited fs path (pend_at u) (decimal m.msg.id) pend
          (drop_child (decimal m.msg.id) pend) (settle-IsLocal none) (settle-Leaves none) at
          a.pending cut in
      let rest = pend_msgs_table ∷ decimal m.msg.id ∷ [] in
      let (tables, db) = edited.above (db_dir ∷ []) rest (table_name u) a.tables refl a.db in
      let (tbl, table) =
        edited.above (table_at u) (decimal m.msg.id ∷ []) pend_msgs_table a.table_entries refl
          a.table in
      (
        record {
          after = fs';
          result =
              ground
                (arith, is_msg, at, at_msg, made, remove_node_lem sound path (file (image node)));
          account = record {
            tables = tables;
            db = db;
            table_entries = tbl;
            table = table;
            stored = edited.apart (data_at u) (msg-anyone-Apart u u m.msg.id) ∙ a.stored;
            pending =
                changed-parent (settle none) fs fs' path (pend_at u) (decimal m.msg.id) pend
                  (drop_child (decimal m.msg.id) pend) at a.pending cut made;
          };
          others = Edited-SameOthers u rest edited;
          sound = NoFaults-Edited edited sound;
          place = edited.place;
        },
        edited,
      )

-- `db_get_pend_msg` finds the message whose file comes first.
pub get_first :
    (fs : Fs) (given e m : Entry) (rest : Entries)
    → NoFaults fs.faulty
    → NoSlash given.username
    → given.type ≡ EntryType.p_msg
    → m.msg.id < 2 ^ 32
    → Account fs given.username e (entry (decimal m.msg.id) (file (image m)) rest)
    → db_get_pend_msg given fs ≡ (dbms_success, m)
unfolding db_get_pend_msg
get_first fs given e m rest sound name is_msg small a =
    let asked = record given { msg = record given.msg { id = m.msg.id } } in
    let at_msg : walk (msg_at given.username m.msg.id) fs.root ≡ ok (file (image m)) =
      walk-append (pend_at given.username) (decimal m.msg.id ∷ []) fs.root
        (dir (entry (decimal m.msg.id) (file (image m)) rest)) a.pending
      ∙ (unfold walk child in ground (arith, str_eq_refl (decimal m.msg.id))) in
    ground (
      arith,
      is_msg,
      open_there fs sound (in_user_table given.username pend_msgs_table) (pend_at given.username)
          (components-pend_table given.username name)
          (entry (decimal m.msg.id) (file (image m)) rest) a.pending,
      str_to_num-decimal m.msg.id small,
      read_pend_msg fs sound asked name is_msg m at_msg,
    )
