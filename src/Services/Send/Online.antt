-- ===== src/Services/Send/Online.antt =====
-- What the SEND service of src/services.c does for a recipient whose listening thread takes the
-- message, where no call of the file system fails.
use ds_lab_assignment.Prelude.{ℕ, suc, ◌≡◌, ◌≢◌, refl, ◌∙◌, List, [], ◌∷◌, ◌++◌, none, true, arith}
use ds_lab_assignment.Util.Codes.{srv_success, status_cn}
use ds_lab_assignment.Util.Types.{Entry, Request}
use ds_lab_assignment.Util.Decimal.{decimal}
use ds_lab_assignment.Dbms.Fs.{Fs, image, file, Entries, child, insert_new}
use ds_lab_assignment.Dbms.Account.{Account, SameOthers, Account-elsewhere}
use ds_lab_assignment.Dbms.Updates.{store_Updated}
use ds_lab_assignment.Services.World.{Peer, accepts, World, Stack, user_entry}
use ds_lab_assignment.Services.Client.Laws.{
  message_frame, ack_frame, clt_send_message_lem, clt_send_mess_ack_lem,
}
use ds_lab_assignment.Services.Send.{advanced, message_entry, srv_send_request}
use ds_lab_assignment.Services.Send.Laws.{Ready, id, kept, aux_send_init_lem}

module _ (s : Stack) (request : Request) (w : World) {sender e : Entry} {mine pend : Entries}
    (r : Ready request w sender e mine pend) where
  -- what the two listening threads are sent
  abbrev pub world_after : Fs → List Peer → World
  world_after fs' peers = record w {
    fs = fs';
    replies = (w.replies ++ (0 ∷ []) ∷ []) ++ (decimal (id s request w r) ++ 0 ∷ []) ∷ [];
    peers = peers;
    frames =
        (w.frames ++ message_frame (advanced e) (message_entry s request (advanced e)).msg ∷ [])
        ++ ack_frame sender (id s request w r) ∷ [];
  }

  -- No call of the file system fails, the two users are different and have accounts and names
  -- without a slash, and the client can be answered. The recipient is connected, and the
  -- listening threads of both users take what they are sent. Where `send_msg_reply` was 0 by
  -- chance, SEND gives the sender the reply 0 and the message's ID, the recipient's thread the
  -- message, and the sender's thread the acknowledgement. No message is stored, and other users'
  -- tables are as they were.
  pub srv_send_online :
      (j k : ℕ) (peers : List Peer)
      → request.message.sender ≢ e.username
      → e.user.status ≡ status_cn
      → s.send_msg_reply ≡ srv_success
      → w.writable ≡ true
      → w.peers ≡ accepts (suc (suc (suc (suc j)))) ∷ accepts (suc (suc k)) ∷ peers
      → (fs' : Fs) × (srv_send_request s request w ≡ world_after fs' peers)
        × Account fs' e.username (advanced e) pend
        × SameOthers e.username w.fs fs'
  unfolding srv_send_request
  srv_send_online j k peers apart on zeroed writable reached =
      let (u, init) = aux_send_init_lem s request w r in
      let msg = (message_entry s request (advanced e)).msg in
      let sent =
        clt_send_message_lem (advanced e) (advanced e) (record w { fs = u.after }) u.sound r.name
          r.is_ud u.account.stored msg j (accepts (suc (suc k)) ∷ peers) reached in
      let back = Account-elsewhere u.others apart u.account r.from_account in
      let w' = record w {
        fs = u.after;
        replies = (w.replies ++ (0 ∷ []) ∷ []) ++ (decimal (id s request w r) ++ 0 ∷ []) ∷ [];
        peers = accepts (suc (suc k)) ∷ peers;
        frames = w.frames ++ message_frame (advanced e) msg ∷ [];
      } in
      let acked =
        clt_send_mess_ack_lem (user_entry s.entry request.message.sender) sender w' u.sound
          r.sender_name refl back.stored (id s request w r) k peers refl in
      (u.after, ground (arith, init, on, zeroed, writable, sent, acked), u.account, u.others)

  -- Under the same conditions, but where `send_msg_reply` was not 0 and the recipient has no
  -- pending message under the next message ID: the replies and what the listening threads get are
  -- the same, and SEND also stores the message that was delivered as pending.
  pub srv_send_online_stored :
      (j k : ℕ) (peers : List Peer)
      → request.message.sender ≢ e.username
      → e.user.status ≡ status_cn
      → s.send_msg_reply ≢ srv_success
      → child (decimal (id s request w r)) pend ≡ none
      → w.writable ≡ true
      → w.peers ≡ accepts (suc (suc (suc (suc j)))) ∷ accepts (suc (suc k)) ∷ peers
      → (fs' : Fs) × (srv_send_request s request w ≡ world_after fs' peers)
        × Account fs' e.username (advanced e) (
            insert_new w.fs.place
              (decimal (id s request w r))
              (file (image (kept s request w r)))
              pend)
        × SameOthers e.username w.fs fs'
  unfolding srv_send_request
  srv_send_online_stored j k peers apart on stale free writable reached =
      let (u, init) = aux_send_init_lem s request w r in
      let msg = (message_entry s request (advanced e)).msg in
      let sent =
        clt_send_message_lem (advanced e) (advanced e) (record w { fs = u.after }) u.sound r.name
          r.is_ud u.account.stored msg j (accepts (suc (suc k)) ∷ peers) reached in
      let stored =
        store_Updated u.after (kept s request w r) (advanced e) pend u.place u.sound r.name refl
          u.account free in
      let same : SameOthers e.username w.fs stored.after =
        λ v q ne. stored.others v q ne ∙ u.others v q ne in
      let back = Account-elsewhere same apart stored.account r.from_account in
      let w' = record w {
        fs = stored.after;
        replies = (w.replies ++ (0 ∷ []) ∷ []) ++ (decimal (id s request w r) ++ 0 ∷ []) ∷ [];
        peers = accepts (suc (suc k)) ∷ peers;
        frames = w.frames ++ message_frame (advanced e) msg ∷ [];
      } in
      let acked =
        clt_send_mess_ack_lem (user_entry s.entry request.message.sender) sender w' stored.sound
          r.sender_name refl back.stored (id s request w r) k peers refl in
      (
        stored.after,
        ground (arith, init, on, stale, writable, r.to, sent, stored.result, acked),
        stored.account,
        same,
      )
