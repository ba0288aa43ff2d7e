-- ===== src/Services/InPlace/Send.antt =====
-- What SEND of src/services.c changes in the database, whatever fails.
use ds_lab_assignment.Prelude.{
  ℕ, ◌==◌, ◌≡◌, refl, sym, ◌∙◌, ◌∷◌, [], ◌++◌, false, not, ◌||◌, pos, Bytes, if_elim, is_neg,
  int_eq,
}
use mathlib.Core.Path.{subst}
use ds_lab_assignment.Util.Codes.{srv_success, status_cn, status_dcn}
use ds_lab_assignment.Util.Decimal.{decimal}
use ds_lab_assignment.Util.Types.{Request, Entry, Mode}
use ds_lab_assignment.Dbms.Fs.{Fs}
use ds_lab_assignment.Dbms.Ops.{db_user_exists}
use ds_lab_assignment.Dbms.InPlace.{InPlace}
use ds_lab_assignment.Dbms.InPlace.Calls.Reads.{Owned, Owned-own, Owned-user, modify-entry}
use ds_lab_assignment.Services.World.{World, Stack, receive, reply_bytes, Io, io_op, user_entry}
use ds_lab_assignment.Services.Client.{clt_send_message}
use ds_lab_assignment.Services.Pending.{disconnected}
use ds_lab_assignment.Services.Send.{
  Step, advanced, advance_id, aux_send_init, message_entry, after_send, aux_send_msg_pass,
  aux_send_first_ack, store_message, second_ack, pass_message, srv_send_request, srv_send,
}
use ds_lab_assignment.Services.InPlace.{
  Kept, Kept-same, Kept-trans, clt_send_message-fs, clt_send_message-Owned, clt_send_mess_ack-fs,
  reply_bytes-fs,
}
use ds_lab_assignment.Services.InPlace.Users.{Found, read-Found, rewritten-Kept}

-- Behind `aux_send_init`: where it succeeds, the entry is the recipient's.
record Opened (u : Bytes) (fs : Fs) (p : Step) : Type 0 where
  kept : Kept u fs p.world.fs
  owned : not (p.reply == srv_success) ≡ false → Owned u p.entry

advance_id-Opened : (u : Bytes) {fs : Fs} (r : Io) → Found u fs r → Opened u fs (advance_id r)
unfolding advance_id
advance_id-Opened u {fs} r f =
    let e = advanced r.entry in
    let own = Owned-user r.entry e.user f.owned in
    if_elim (Opened u fs) (is_neg r.result) (λ _. record { kept = f.kept; owned = λ h. f.owned })
      λ _. record {
        kept = rewritten-Kept u e Mode.modify r.world f.kept own;
        owned = λ h. written u e r.world own;
      }
  where
    written :
        (v : Bytes) (x : Entry) (w : World) → Owned v x → Owned v (io_op x Mode.modify w).entry
    written v x w o = unfold io_op in subst (Owned v) (sym (modify-entry x w.fs)) o

aux_send_init-Opened :
    (request : Request) (e : Entry) (w : World)
    → InPlace w.fs
    → Opened request.recipient w.fs (aux_send_init request e w)
unfolding aux_send_init
aux_send_init-Opened request e w i =
    let u = request.recipient in
    let sender_exists = db_user_exists request.message.sender w.fs in
    let recipient_exists = db_user_exists u w.fs in
    let named = user_entry e u in
    let same = Kept-same u i refl in
    if_elim (Opened u w.fs) (int_eq sender_exists (pos 0) || int_eq recipient_exists (pos 0))
      (λ _. record { kept = same; owned = λ h. absurd (cc) })
      λ _.
        if_elim (Opened u w.fs) (is_neg sender_exists || is_neg recipient_exists)
          (λ _. record { kept = same; owned = λ h. absurd (cc) })
          λ _.
            advance_id-Opened u (io_op named Mode.read w) (read-Found u named w i (Owned-own named))

aux_send_msg_pass-Kept :
    (u : Bytes) (reply : ℕ) (msg recipient : Entry) {fs : Fs} (w : World)
    → Kept u fs w.fs
    → Owned u recipient
    → Kept u fs (aux_send_msg_pass reply msg recipient w).world.fs
unfolding aux_send_msg_pass after_send
aux_send_msg_pass-Kept u reply msg recipient {fs} w k o =
    let sent = clt_send_message msg.msg recipient w in
    let still = Kept-trans k (Kept-same u k.in_place (clt_send_message-fs msg.msg recipient w)) in
    let own = clt_send_message-Owned u msg.msg recipient w k.in_place o in
    let P = λ (p : Step). Kept u fs p.world.fs in
    if_elim P (recipient.user.status == status_cn)
      (λ _.
        if_elim P (int_eq sent.result (pos srv_success)) (λ _. still)
          λ _.
            rewritten-Kept u (disconnected sent.entry) Mode.modify sent.world still
              (Owned-user sent.entry (disconnected sent.entry).user own))
      λ _. k

store_message-Kept :
    (u : Bytes) (s : Stack) (msg : Entry) {fs : Fs} (p : Step)
    → Kept u fs p.world.fs
    → Owned u msg
    → Kept u fs (store_message s msg p).world.fs
unfolding store_message
store_message-Kept u s msg {fs} p k o =
    if_elim (λ (q : Step). Kept u fs q.world.fs)
      (p.entry.user.status == status_dcn || not (s.send_msg_reply == srv_success))
      (λ _. rewritten-Kept u msg Mode.create p.world k o) λ _. k

aux_send_first_ack-fs : (reply id : ℕ) (w : World) → (aux_send_first_ack reply id w).fs ≡ w.fs
unfolding aux_send_first_ack
aux_send_first_ack-fs reply id w =
    let first = reply_bytes-fs (reply ∷ []) w in
    let r = reply_bytes (reply ∷ []) w in
    let P = λ (x : World). x.fs ≡ w.fs in
    if_elim P (is_neg r.0) (λ _. first)
      λ _.
        if_elim P (reply == srv_success) (λ _. reply_bytes-fs (decimal id ++ 0 ∷ []) r.1 ∙ first)
          λ _. first

second_ack-fs :
    (s : Stack) (request : Request) (e : Entry) (w : World) → (second_ack s request e w).fs ≡ w.fs
unfolding second_ack
second_ack-fs s request e w =
    if_elim (λ (x : World). x.fs ≡ w.fs) (e.user.status == status_cn)
      (λ _. clt_send_mess_ack-fs _ _ w) λ _. refl

srv_send_request-Kept :
    (s : Stack) (request : Request) (w : World)
    → InPlace w.fs
    → Kept request.recipient w.fs (srv_send_request s request w).fs
unfolding srv_send_request pass_message
srv_send_request-Kept s request w i =
    let u = request.recipient in
    let p = aux_send_init request s.entry w in
    let opened = aux_send_init-Opened request s.entry w i in
    let msg = message_entry s request p.entry in
    let passed = aux_send_msg_pass p.reply msg p.entry p.world in
    let q = store_message s msg passed in
    let acked = aux_send_first_ack q.reply msg.msg.id q.world in
    if_elim (λ (x : World). Kept u w.fs x.fs) (not (p.reply == srv_success))
      (λ _.
        Kept-trans opened.kept
          (Kept-same u opened.kept.in_place (reply_bytes-fs (p.reply ∷ []) p.world)))
      λ success.
        let k =
          aux_send_msg_pass-Kept u p.reply msg p.entry p.world opened.kept (opened.owned success) in
        let k' = store_message-Kept u s msg passed k (Owned-own msg) in
        Kept-trans k' (
          Kept-same u k'.in_place (
            second_ack-fs s request q.entry acked
            ∙ aux_send_first_ack-fs q.reply msg.msg.id q.world))

-- the name of the recipient, as SEND reads it
abbrev pub recipient_read : Request → World → Bytes
recipient_read request w =
    (receive request.recipient (receive request.message.sender w).world).string

pub srv_send-Kept :
    (s : Stack) (request : Request) (w : World)
    → InPlace w.fs
    → Kept (recipient_read request w) w.fs (srv_send s request w).fs
unfolding srv_send receive
srv_send-Kept s request w i =
    let m = request.message in
    let sender = receive m.sender w in
    let recipient = receive request.recipient sender.world in
    let content = receive m.content recipient.world in
    let u = recipient.string in
    let same = Kept-same u i refl in
    let P = λ (x : World). Kept u w.fs x.fs in
    if_elim P (is_neg sender.result) (λ _. same)
      λ _.
        if_elim P (is_neg recipient.result) (λ _. same)
          λ _.
            if_elim P (is_neg content.result) (λ _. same)
              λ _.
                srv_send_request-Kept s
                  (record request {
                    recipient = u;
                    message = record m { sender = sender.string; content = content.string };
                  })
                  content.world i
