-- ===== src/Services/Pending/Undeletable.antt =====
-- The database's functions that the loop of `aux_connect_send_pend_msgs` of src/services.c calls, where no
-- file can be deleted.
use ds_lab_assignment.Prelude.{
  ◌^◌, ◌<◌, ◌≡◌, refl, ◌∙◌, ap, true, false, [], ◌∷◌, some, Bytes, str_eq_refl, arith,
}
use ds_lab_assignment.Util.Codes.{gen_err_any, dbms_success, db_dir, pend_msgs_table}
use ds_lab_assignment.Util.Types.{Entry, EntryType, Mode}
use ds_lab_assignment.Util.Decimal.{decimal}
use ds_lab_assignment.Util.StrToNum.Laws.{str_to_num-decimal}
use ds_lab_assignment.Dbms.Fs.{
  Fs, image, file, dir, Node, Entries, entry, open_dir, open_entry, read_entry, remove_entry, ok,
  walk, child, put_child, settle,
}
use ds_lab_assignment.Dbms.Fs.Laws.{walk-append, settle-IsLocal, settle-Leaves}
use ds_lab_assignment.Dbms.Paths.{table_name, entry_path, pend_msg_path, in_user_table}
use ds_lab_assignment.Dbms.Paths.Laws.{NoSlash, components-pend_msg_path, components-pend_table}
use ds_lab_assignment.Dbms.Remove.{remove_recursive, remove_node}
use ds_lab_assignment.Dbms.Edited.{changed-Edited, changed-parent}
use ds_lab_assignment.Dbms.Util.{open_directory, changed}
use ds_lab_assignment.Dbms.Readable.{Readable, read_msg}
use ds_lab_assignment.Dbms.Account.{table_at, data_at, pend_at, msg_at, Account}
use ds_lab_assignment.Dbms.Deletions.{msg-anyone-Apart}
use ds_lab_assignment.Dbms.Ops.{db_io_op_usr_ent, db_get_pend_msg}

-- All calls that read succeed, and no file can be removed.
pub record Undeletable (fs : Fs) : Type 0 where
  pub lists : (path : Bytes) → fs.faulty open_dir path ≡ false
  pub readable : (path : Bytes) → Readable fs path
  pub stays : (path : Bytes) → fs.faulty remove_entry path ≡ true

-- a message in front of others in the directory
abbrev pub first_of : Entry → Entries → Entries
first_of m more = entry (decimal m.msg.id) (file (image m)) more

at_front :
    (fs : Fs) (u : Bytes) (e m : Entry) (more : Entries)
    → Account fs u e (first_of m more)
    → walk (msg_at u m.msg.id) fs.root ≡ ok (file (image m))
at_front fs u e m more a =
    walk-append (pend_at u) (decimal m.msg.id ∷ []) fs.root (dir (first_of m more)) a.pending
    ∙ (unfold walk child in ground (arith, str_eq_refl (decimal m.msg.id)))

-- `db_get_pend_msg` finds the message.
pub found_first :
    (fs : Fs) (given e m : Entry) (more : Entries)
    → Undeletable fs
    → NoSlash given.username
    → given.type ≡ EntryType.p_msg
    → m.msg.id < 2 ^ 32
    → Account fs given.username e (first_of m more)
    → db_get_pend_msg given fs ≡ (dbms_success, m)
unfolding db_get_pend_msg
found_first fs given e m more k plain is_msg small a =
    let asked = record given { msg = record given.msg { id = m.msg.id } } in
    ground (
      arith,
      is_msg,
      opened_pend,
      str_to_num-decimal m.msg.id small,
      read_msg fs asked plain m is_msg (k.readable (pend_msg_path given.username m.msg.id))
          (at_front fs given.username e m more a),
    )
  where
    opened_pend :
        open_directory (in_user_table given.username pend_msgs_table) Mode.read fs
        ≡ record { result = dbms_success; entries = first_of m more; fs = fs }
    opened_pend =
        unfold open_directory in
        ground (
          arith,
          k.lists (in_user_table given.username pend_msgs_table),
          components-pend_table given.username plain,
          a.pending,
        )

-- What DELETE of the message leaves.
pub record Stuck (fs fs' : Fs) (u : Bytes) (e m : Entry) (more : Entries) : Type 0 where
  pub account : Account fs' u e (first_of m more)
  pub undeletable : Undeletable fs'
  pub apart : (v : Bytes) → walk (data_at v) fs'.root ≡ walk (data_at v) fs.root

Undeletable-same : (fs fs' : Fs) → fs'.faulty ≡ fs.faulty → Undeletable fs → Undeletable fs'
Undeletable-same fs fs' same k = record {
  lists = λ p. ap (λ f. f open_dir p) same ∙ k.lists p;
  readable = λ p. record {
    opens = ap (λ f. f (open_entry Mode.read) p) same ∙ (k.readable p).opens;
    reads = ap (λ f. f read_entry p) same ∙ (k.readable p).reads;
  };
  stays = λ p. ap (λ f. f remove_entry p) same ∙ k.stays p;
}

not_removed :
    (fs : Fs) (path : Bytes) (m : Entry)
    → Undeletable fs
    → remove_node fs.faulty path (file (image m))
      ≡ record { result = gen_err_any; left = some (file (image m)) }
unfolding remove_node
not_removed fs path m k = ground (arith, k.stays path)

settled_again :
    (m : Entry) (more : Entries)
    → settle (some (file (image m))) (decimal m.msg.id) (first_of m more) ≡ ok (first_of m more)
unfolding settle put_child
settled_again m more = ground (arith, str_eq_refl (decimal m.msg.id))

deleted_not :
    (fs fs' : Fs) (m : Entry)
    → Undeletable fs
    → NoSlash m.username
    → m.type ≡ EntryType.p_msg
    → walk (msg_at m.username m.msg.id) fs.root ≡ ok (file (image m))
    → changed fs (settle (some (file (image m)))) (pend_msg_path m.username m.msg.id) ≡ ok fs'
    → (db_io_op_usr_ent m Mode.delete fs).fs ≡ fs'
unfolding db_io_op_usr_ent entry_path remove_recursive
deleted_not fs fs' m k plain is_msg there made = ground (
  arith,
  is_msg,
  components-pend_msg_path m.username m.msg.id plain,
  there,
  made,
  not_removed fs (pend_msg_path m.username m.msg.id) m k,
)

pub delete_remaining :
    (fs : Fs) (m e : Entry) (more : Entries)
    → Undeletable fs
    → NoSlash m.username
    → m.type ≡ EntryType.p_msg
    → Account fs m.username e (first_of m more)
    → (fs' : Fs) × ((db_io_op_usr_ent m Mode.delete fs).fs ≡ fs') × Stuck fs fs' m.username e m more
delete_remaining fs m e more k plain is_msg a =
    let u = m.username in
    let node : Node = file (image m) in
    let path = pend_msg_path u m.msg.id in
    let at = components-pend_msg_path u m.msg.id plain in
    let there = at_front fs u e m more a in
    let same = settled_again m more in
    let (fs', made, edited) =
      changed-Edited fs path (pend_at u) (decimal m.msg.id) (first_of m more) (first_of m more)
        (settle-IsLocal (some node)) (settle-Leaves (some node)) at a.pending same in
    let rest = pend_msgs_table ∷ decimal m.msg.id ∷ [] in
    let (tables, db) = edited.above (db_dir ∷ []) rest (table_name u) a.tables refl a.db in
    let (tbl, table) =
      edited.above (table_at u) (decimal m.msg.id ∷ []) pend_msgs_table a.table_entries refl
        a.table in
    (
      fs',
      deleted_not fs fs' m k plain is_msg there made,
      record {
        account = record {
          tables = tables;
          db = db;
          table_entries = tbl;
          table = table;
          stored = edited.apart (data_at u) (msg-anyone-Apart u u m.msg.id) ∙ a.stored;
          pending =
              changed-parent (settle (some node)) fs fs' path (pend_at u) (decimal m.msg.id)
                (first_of m more) (first_of m more) at a.pending same made;
        };
        undeletable = Undeletable-same fs fs' edited.faults k;
        apart = λ v. edited.apart (data_at v) (msg-anyone-Apart u v m.msg.id);
      },
    )
