-- ===== src/Services/Send/Refused.antt =====
-- What the SEND service of src/services.c does for a recipient who is recorded as connected and whose
-- listening thread is gone, where no call of the file system fails.
use ds_lab_assignment.Prelude.{◌≡◌, refl, ◌∙◌, List, [], ◌∷◌, ◌++◌, none, true, arith}
use ds_lab_assignment.Util.Codes.{status_cn}
use ds_lab_assignment.Util.Types.{Entry, Request}
use ds_lab_assignment.Util.Decimal.{decimal}
use ds_lab_assignment.Dbms.Fs.{Fs, image, file, Entries, child, insert_new}
use ds_lab_assignment.Dbms.Account.{Account, SameOthers}
use ds_lab_assignment.Dbms.Updates.{modify_Updated, store_Updated}
use ds_lab_assignment.Services.World.{Peer, refuses, World, Stack}
use ds_lab_assignment.Services.Client.Laws.{clt_send_message_refused}
use ds_lab_assignment.Services.Pending.{disconnected}
use ds_lab_assignment.Services.Send.{advanced, message_entry, srv_send_request}
use ds_lab_assignment.Services.Send.Laws.{Ready, id, kept, aux_send_init_lem}

-- No call of the file system fails, both users have accounts and names without a slash, and the
-- client can be answered. The recipient is recorded as connected, its listening thread refuses the
-- connection, and no message waits under the next message ID. SEND marks the recipient as
-- disconnected, stores the message as pending under that ID, and gives the sender the reply 0 and the
-- ID. No listening thread is sent anything, and other users' tables are as they were.
pub srv_send_refused :
    (s : Stack) (request : Request) (w : World) {sender e : Entry} {mine pend : Entries}
    (r : Ready request w sender e mine pend) (peers : List Peer)
    → e.user.status ≡ status_cn
    → child (decimal (id s request w r)) pend ≡ none
    → w.writable ≡ true
    → w.peers ≡ refuses ∷ peers
    → (fs' : Fs) × (srv_send_request s request w ≡ record w {
      fs = fs';
      peers = peers;
      replies = (w.replies ++ (0 ∷ []) ∷ []) ++ (decimal (id s request w r) ++ 0 ∷ []) ∷ [];
    })
      × Account fs' e.username (disconnected (advanced e)) (
          insert_new w.fs.place
            (decimal (id s request w r))
            (file (image (kept s request w r)))
            pend)
      × SameOthers e.username w.fs fs'
unfolding srv_send_request
srv_send_refused s request w {sender} {e} {mine} {pend} r peers on free writable refused =
    let (u, init) = aux_send_init_lem s request w r in
    let msg = (message_entry s request (advanced e)).msg in
    let unsent =
      clt_send_message_refused (advanced e) (advanced e) (record w { fs = u.after }) u.sound r.name
        r.is_ud u.account.stored msg peers refused in
    let gone = disconnected (advanced e) in
    let marked = modify_Updated u.after gone (advanced e) pend u.sound r.name r.is_ud u.account in
    let stored =
      store_Updated marked.after (kept s request w r) gone pend (marked.place ∙ u.place)
        marked.sound r.name refl marked.account free in
    (
      stored.after,
      ground (arith, init, on, writable, r.to, unsent, marked.result, stored.result),
      stored.account,
      λ v q ne. stored.others v q ne ∙ (marked.others v q ne ∙ u.others v q ne),
    )
