-- ===== src/Services/Send/Laws.antt =====
-- What the SEND service of src/services.c does to the recipient's account and tells the sender, where
-- no call of the file system fails.
use ds_lab_assignment.Prelude.{ℕ, ◌+◌, ◌<◌, ◌≡◌, refl, ◌∙◌, [], ◌∷◌, ◌++◌, none, true, ◌⊎◌, arith}
use ds_lab_assignment.Util.Codes.{srv_success, status_dcn, msg_id_max_value}
use ds_lab_assignment.Util.Types.{Entry, EntryType, Request, Mode}
use ds_lab_assignment.Util.Decimal.{decimal}
use ds_lab_assignment.Dbms.Fs.{Fs, image, file, Entries, child, insert_new}
use ds_lab_assignment.Dbms.Paths.Laws.{NoSlash}
use ds_lab_assignment.Dbms.Remove.Laws.{NoFaults}
use ds_lab_assignment.Dbms.Account.{Account, Unknown, SameOthers}
use ds_lab_assignment.Dbms.Tables.{db_user_exists_lem}
use ds_lab_assignment.Dbms.Ops.{db_io_op_usr_ent}
use ds_lab_assignment.Dbms.Ops.Laws.{read_userdata}
use ds_lab_assignment.Dbms.Updates.{Updated, modify_Updated, store_Updated}
use ds_lab_assignment.Services.World.{World, Stack, user_entry}
use ds_lab_assignment.Services.Send.{
  next_id, advanced, aux_send_init, message_entry, srv_send_request,
}

-- The ID after a message ID below MSG_ID_MAX_VALUE is below it too: it is the next number, or 0
-- after the last one.
pub next_id_bounds :
    (last : ℕ)
    → last < msg_id_max_value
    → (next_id last < msg_id_max_value)
      × ((next_id last ≡ last + 1) ⊎ ((last + 1 ≡ msg_id_max_value) × (next_id last ≡ 0)))
unfolding next_id
next_id_bounds last h = ground arith

-- What the theorems about SEND assume: no call fails, both users have accounts, and the recipient's
-- entry is one that the server wrote.
pub record Ready (request : Request) (w : World) (sender e : Entry) (mine pend : Entries)
    : Type 0 where
  pub sound : NoFaults w.fs.faulty
  pub sender_name : NoSlash request.message.sender
  pub name : NoSlash e.username
  pub to : request.recipient ≡ e.username
  pub is_ud : e.type ≡ EntryType.ud
  pub from_account : Account w.fs request.message.sender sender mine
  pub account : Account w.fs e.username e pend

module _ (s : Stack) (request : Request) (w : World) {sender e : Entry} {mine pend : Entries}
    (r : Ready request w sender e mine pend) where
  -- the recipient's next message ID
  abbrev pub id : ℕ
  id = (advanced e).user.last_msg_id

  -- the entry of the message, in the recipient's table
  abbrev pub kept : Entry
  kept = record (message_entry s request (advanced e)) { username = e.username }

  -- `aux_send_init` succeeds: the recipient's entry is written back with the next message ID.
  pub aux_send_init_lem :
      (u : Updated w.fs e.username
        (advanced e)
        pend
        (advanced e)
        (db_io_op_usr_ent (advanced e) Mode.modify w.fs))
      × (aux_send_init request s.entry w
          ≡ record { reply = srv_success; entry = advanced e; world = record w { fs = u.after } })
  unfolding aux_send_init
  aux_send_init_lem =
      let u = modify_Updated w.fs (advanced e) e pend r.sound r.name r.is_ud r.account in
      let to_name : NoSlash request.recipient = rw r.to r.name in
      (
        u,
        ground (
          arith,
          r.to,
          (db_user_exists_lem w.fs r.sound request.message.sender r.sender_name).0 sender mine
              r.from_account,
          (db_user_exists_lem w.fs r.sound e.username r.name).0 e pend r.account,
          read_userdata w.fs r.sound (user_entry s.entry e.username) r.name refl e r.account.stored,
          u.result,
        ),
      )

  -- No call of the file system fails, both users have accounts and names without a slash, and the
  -- client can be answered. The recipient is not connected, and has no pending message under the
  -- next message ID. SEND stores the message as pending under that ID, listed where the file system
  -- lists it, and gives the sender the
  -- reply 0 and the ID. The recipient's entry keeps all but the last message ID; other users'
  -- tables and the listening threads see nothing,
  -- and the calls still do not fail.
  pub srv_send_offline :
      e.user.status ≡ status_dcn
      → child (decimal id) pend ≡ none
      → w.writable ≡ true
      → (fs' : Fs) × (srv_send_request s request w ≡ record w {
        fs = fs';
        replies = (w.replies ++ (0 ∷ []) ∷ []) ++ (decimal id ++ 0 ∷ []) ∷ [];
      })
        × Account fs' e.username
            (advanced e)
            (insert_new w.fs.place (decimal id) (file (image kept)) pend)
        × SameOthers e.username w.fs fs'
        × NoFaults fs'.faulty
  unfolding srv_send_request
  srv_send_offline off free writable =
      let (u, init) = aux_send_init_lem in
      let stored =
        store_Updated u.after kept (advanced e) pend u.place u.sound r.name refl u.account free in
      (
        stored.after,
        ground (arith, init, off, writable, r.to, stored.result),
        stored.account,
        λ v q ne. stored.others v q ne ∙ u.others v q ne,
        stored.sound,
      )

-- No call of the file system fails, both names hold no slash, and the client can be answered. The
-- sender has an account and the recipient has none: SEND answers 1, sends nothing to any
-- listening thread, and changes nothing in the database.
pub srv_send-Unknown :
    (s : Stack) (request : Request) (w : World) (sender : Entry) (mine : Entries)
    → NoFaults w.fs.faulty
    → NoSlash request.message.sender
    → NoSlash request.recipient
    → w.writable ≡ true
    → Account w.fs request.message.sender sender mine
    → Unknown w.fs request.recipient
    → srv_send_request s request w ≡ record w { replies = w.replies ++ (1 ∷ []) ∷ [] }
unfolding srv_send_request aux_send_init
srv_send-Unknown s request w sender mine sound from to writable here absent = ground (
  arith,
  (db_user_exists_lem w.fs sound request.message.sender from).0 sender mine here,
  (db_user_exists_lem w.fs sound request.recipient to).1 absent,
  writable,
)
