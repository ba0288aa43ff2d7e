-- ===== src/Services/Replies/Send.antt =====
-- The replies of SEND of src/services.c, whatever fails.
use ds_lab_assignment.Prelude.{
  ℕ, ap, ◌∙◌, append-nil, take, length, Bytes, ◌≤◌, ◌≡◌, ◌==◌, refl, sym, not, ◌||◌, Bool-cases,
  inl, inr, [], ◌∷◌, ◌++◌, append_assoc, pos, if_elim, is_neg, int_eq, arith,
}
use mathlib.Core.Path.{subst}
use ds_lab_assignment.Services.Users.{replied}
use ds_lab_assignment.Util.Codes.{srv_success, status_cn, status_dcn}
use ds_lab_assignment.Util.Types.{Entry, Request, Mode}
use ds_lab_assignment.Util.Decimal.{decimal}
use ds_lab_assignment.Dbms.Ops.{db_user_exists}
use ds_lab_assignment.Services.World.{World, Stack, io_op, user_entry, receive, reply_bytes}
use ds_lab_assignment.Services.Client.{clt_send_message}
use ds_lab_assignment.Services.Pending.{disconnected}
use ds_lab_assignment.Services.Send.{
  Step, advanced, advance_id, aux_send_init, message_entry, after_send, aux_send_msg_pass,
  aux_send_first_ack, store_message, second_ack, pass_message, srv_send_request, srv_send,
}
use ds_lab_assignment.Services.Replies.{
  Silent, Replied, nothing, one, accepted, cut, reply_bytes_lem, Silent-trans, Silent-Replied,
  Replied-before, Replied-after, same, replied_lem,
}
use ds_lab_assignment.Services.Replies.Transmission.{
  clt_send_message-Silent, clt_send_mess_ack-Silent,
}

-- A step with a reply up to 2, before which nothing was sent to the client.
record Stepped (w : World) (p : Step) : Type 0 where
  small : p.reply ≤ 2
  silent : Silent w p.world

aux_send_init-Stepped :
    (request : Request) (e : Entry) (w : World) → Stepped w (aux_send_init request e w)
unfolding aux_send_init advance_id io_op
aux_send_init-Stepped request e w =
    let sender_exists = db_user_exists request.message.sender w.fs in
    let recipient_exists = db_user_exists request.recipient w.fs in
    let r = io_op (user_entry e request.recipient) Mode.read w in
    let written = io_op (advanced r.entry) Mode.modify r.world in
    if_elim (Stepped w) (int_eq sender_exists (pos 0) || int_eq recipient_exists (pos 0))
      (λ _. record { small = omega arith; silent = same w w refl refl refl refl })
      λ _.
        if_elim (Stepped w) (is_neg sender_exists || is_neg recipient_exists)
          (λ _. record { small = omega arith; silent = same w w refl refl refl refl })
          λ _.
            if_elim (Stepped w) (is_neg r.result)
              (λ _. record { small = omega arith; silent = same w r.world refl refl refl refl })
              λ _. record {
                small =
                    if_elim (λ c. c ≤ 2) (is_neg written.result) (λ _. omega arith)
                      (λ _. omega arith);
                silent = same w written.world refl refl refl refl;
              }

aux_send_msg_pass-Stepped :
    (reply : ℕ) (msg recipient : Entry) (w : World)
    → reply ≤ 2
    → Stepped w (aux_send_msg_pass reply msg recipient w)
unfolding aux_send_msg_pass after_send io_op
aux_send_msg_pass-Stepped reply msg recipient w small =
    let sent = clt_send_message msg.msg recipient w in
    let silent = clt_send_message-Silent msg.msg recipient w in
    let marked = io_op (disconnected sent.entry) Mode.modify sent.world in
    if_elim (Stepped w) (recipient.user.status == status_cn)
      (λ _.
        if_elim (Stepped w) (int_eq sent.result (pos srv_success))
          (λ _. record { small = small; silent = silent })
          λ _. record {
            small = if_elim (λ c. c ≤ 2) (is_neg marked.result) (λ _. omega arith) (λ _. small);
            silent = Silent-trans silent (same sent.world marked.world refl refl refl refl);
          })
      λ _. record { small = small; silent = same w w refl refl refl refl }

store_message-Stepped :
    (s : Stack) (msg : Entry) (w : World) (p : Step)
    → Stepped w p
    → Stepped w (store_message s msg p)
unfolding store_message io_op
store_message-Stepped s msg w p t =
    let stored = io_op msg Mode.create p.world in
    if_elim (Stepped w) (p.entry.user.status == status_dcn || not (s.send_msg_reply == srv_success))
      (λ _. record {
        small = if_elim (λ c. c ≤ 2) (is_neg stored.result) (λ _. omega arith) (λ _. t.small);
        silent = Silent-trans t.silent (same p.world stored.world refl refl refl refl);
      })
      λ _. t

-- the message ID behind the reply 0
id-Replied :
    (id : ℕ) (w v : World)
    → v.replies ≡ w.replies ++ (0 ∷ []) ∷ []
    → v.beyond ≡ w.beyond
    → length v.peers ≡ length w.peers
    → Replied w (reply_bytes (decimal id ++ 0 ∷ []) v).1
id-Replied id w v before ends few =
    let (wrote, peers, beyond) = reply_bytes_lem (decimal id ++ 0 ∷ []) v in
    let w' = (reply_bytes (decimal id ++ 0 ∷ []) v).1 in
    let behind : (part : Bytes)
        → w'.replies ≡ v.replies ++ part ∷ []
        → w'.replies ≡ w.replies ++ (0 ∷ []) ∷ part ∷ [] =
      λ part h.
        h
        ∙ (ap (λ rs. rs ++ part ∷ []) before
            ∙ append_assoc w.replies ((0 ∷ []) ∷ []) (part ∷ [])) in
    elim wrote [
      | inl (_, all) ↦ record {
        added = (0 ∷ []) ∷ (decimal id ++ 0 ∷ []) ∷ [];
        replies = behind (decimal id ++ 0 ∷ []) all;
        reply = accepted id;
        beyond = beyond ∙ ends;
        peers = omega (arith, few, ap length peers);
      }
      | inr (inl (_, none_went)) ↦ record {
        added = (0 ∷ []) ∷ [];
        replies = none_went ∙ before;
        reply = one 0 (omega arith);
        beyond = beyond ∙ ends;
        peers = omega (arith, few, ap length peers);
      }
      | inr (inr (_, (k, more, less, some_went))) ↦ record {
        added = (0 ∷ []) ∷ take k (decimal id ++ 0 ∷ []) ∷ [];
        replies = behind (take k (decimal id ++ 0 ∷ [])) some_went;
        reply = cut id k less;
        beyond = beyond ∙ ends;
        peers = omega (arith, few, ap length peers);
      }
    ]

-- the reply and the message ID
aux_send_first_ack-Replied :
    (reply id : ℕ) (w : World) → reply ≤ 2 → Replied w (aux_send_first_ack reply id w)
unfolding aux_send_first_ack
aux_send_first_ack-Replied reply id w small =
    let r = reply_bytes (reply ∷ []) w in
    let (wrote, peers, beyond) = reply_bytes_lem (reply ∷ []) w in
    elim wrote [
      | inr (inr (_, (k, more, less, _))) ↦ absurd (omega (arith, more, less))
      | inr (inl (failed, none_went)) ↦
          let e : aux_send_first_ack reply id w ≡ r.1 = ground (arith, failed) in
          subst (Replied w) (sym e) (record {
            added = [];
            replies = none_went ∙ sym (append-nil w.replies);
            reply = nothing;
            beyond = beyond;
            peers = omega (arith, ap length peers);
          })
      | inl (went, all) ↦ elim (Bool-cases (reply == srv_success)) [
        | inr refused ↦
            let e : aux_send_first_ack reply id w ≡ r.1 = ground (arith, went, refused) in
            subst (Replied w) (sym e) (record {
              added = (reply ∷ []) ∷ [];
              replies = all;
              reply = one reply (omega (arith, small));
              beyond = beyond;
              peers = omega (arith, ap length peers);
            })
        | inl zero_reply ↦
            let e : aux_send_first_ack reply id w ≡ (reply_bytes (decimal id ++ 0 ∷ []) r.1).1 =
              ground (arith, went, zero_reply) in
            let is_zero : reply ≡ 0 = ground (arith, zero_reply) in
            subst (Replied w) (sym e) (
              id-Replied id w r.1 (all ∙ ap (λ c. w.replies ++ (c ∷ []) ∷ []) is_zero) beyond
                (ap length peers))
      ]
    ]

second_ack-Silent :
    (s : Stack) (request : Request) (e : Entry) (w : World) → Silent w (second_ack s request e w)
unfolding second_ack
second_ack-Silent s request e w =
    if_elim (Silent w) (e.user.status == status_cn) (λ _. clt_send_mess_ack-Silent _ _ w)
      λ _. same w w refl refl refl refl

pub srv_send_request_lem :
    (s : Stack) (request : Request) (w : World) → Replied w (srv_send_request s request w)
unfolding srv_send_request pass_message replied
srv_send_request_lem s request w =
    let p = aux_send_init request s.entry w in
    let t = aux_send_init-Stepped request s.entry w in
    let msg = message_entry s request p.entry in
    let passed = aux_send_msg_pass p.reply msg p.entry p.world in
    let q = store_message s msg passed in
    let t' =
      store_message-Stepped s msg p.world passed
        (aux_send_msg_pass-Stepped p.reply msg p.entry p.world t.small) in
    if_elim (Replied w) (not (p.reply == srv_success))
      (λ _. Replied-before t.silent (replied_lem p.reply p.world (omega (arith, t.small))))
      λ _. Replied-before (Silent-trans t.silent t'.silent) (
        Replied-after (aux_send_first_ack-Replied q.reply msg.msg.id q.world t'.small)
          (second_ack-Silent s request q.entry (aux_send_first_ack q.reply msg.msg.id q.world)))

pub srv_send_lem : (s : Stack) (request : Request) (w : World) → Replied w (srv_send s request w)
unfolding srv_send receive
srv_send_lem s request w =
    let m = request.message in
    let sender = receive m.sender w in
    let recipient = receive request.recipient sender.world in
    let content = receive m.content recipient.world in
    if_elim (Replied w) (is_neg sender.result)
      (λ _. Silent-Replied (same w sender.world refl refl refl refl))
      λ _.
        if_elim (Replied w) (is_neg recipient.result)
          (λ _. Silent-Replied (same w recipient.world refl refl refl refl))
          λ _.
            if_elim (Replied w) (is_neg content.result)
              (λ _. Silent-Replied (same w content.world refl refl refl refl))
              λ _. Replied-before (same w content.world refl refl refl refl) (
                srv_send_request_lem s
                  (record request {
                    recipient = recipient.string;
                    message = record m { sender = sender.string; content = content.string };
                  })
                  content.world)
