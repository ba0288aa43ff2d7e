-- ===== src/Services/Replies/Transmission.antt =====
-- The transmissions to listening threads of src/services.c, and the loop over the pending messages,
-- whatever fails.
use ds_lab_assignment.Prelude.{
  ℕ, zero, suc, ◌≤◌, ◌<◌, ◌≡◌, refl, ◌∙◌, true, false, Bool-cases, Option-cases, inl, inr, List, [],
  ◌∷◌, length, Option, none, some, ℤ, pos, Bytes, if_elim, is_neg, int_eq, arith,
}
use ds_lab_assignment.Util.Codes.{
  gen_err_any, dbms_success, dbms_err_any, srv_success, srv_err_send_any, send_message_op,
  send_mess_ack_op,
}
use ds_lab_assignment.Util.Decimal.{decimal}
use ds_lab_assignment.Util.Types.{Entry, Message, Mode}
use ds_lab_assignment.Dbms.Ops.{db_get_pend_msg}
use ds_lab_assignment.Services.World.{Peer, refuses, accepts, World, Stack, Io, io_op, user_entry}
use ds_lab_assignment.Services.Client.{
  Connection, next_peer, aux_connect_clt_listen_thread, carried, send_over, clt_send_message,
  clt_send_mess_ack,
}
use ds_lab_assignment.Services.Pending.{
  disconnected, acknowledge, send_pending, aux_connect_send_pend_msgs,
}
use ds_lab_assignment.Services.Replies.{Silent, Silent-trans, same}

next_peer_le : (b : Option ℕ) (ps : List Peer) → length (next_peer b ps).1 ≤ length ps
unfolding next_peer
next_peer_le b [] = omega arith
next_peer_le b (refuses ∷ ps) = omega arith
next_peer_le b (accepts n ∷ ps) = omega arith

connect-Silent : (e : Entry) (w : World) → Silent w (aux_connect_clt_listen_thread e w).world
unfolding aux_connect_clt_listen_thread io_op
connect-Silent e w =
    let r = io_op e Mode.read w in
    if_elim (λ (c : Connection). Silent w c.world) (is_neg r.result)
      (λ _. same w r.world refl refl refl refl)
      λ _. record {
        replies = refl;
        writable = refl;
        beyond = refl;
        peers = next_peer_le w.beyond w.peers;
      }

send_over-Silent :
    (strings : List Bytes) (c : Connection) → Silent c.world (send_over strings c).1.world
unfolding send_over carried
send_over-Silent strings c = go c.result
  where
    go : (n : Option ℕ) → Silent c.world (send_over strings (record c { result = n })).1.world
    go none = same c.world c.world refl refl refl refl
    go (some n) = record { replies = refl; writable = refl; beyond = refl; peers = omega arith }

pub clt_send_message-Silent :
    (m : Message) (e : Entry) (w : World) → Silent w (clt_send_message m e w).world
unfolding clt_send_message
clt_send_message-Silent m e w =
    let c = aux_connect_clt_listen_thread e w in
    let strings = send_message_op ∷ m.sender ∷ decimal m.id ∷ m.content ∷ [] in
    let r = send_over strings c in
    let s = Silent-trans (connect-Silent e w) (send_over-Silent strings c) in
    if_elim (λ (io : Io). Silent w io.world) r.0 {x = r.1} {y = record r.1 { result = gen_err_any }}
      (λ _. s) λ _. s

pub clt_send_mess_ack-Silent :
    (id : ℕ) (e : Entry) (w : World) → Silent w (clt_send_mess_ack id e w).world
unfolding clt_send_mess_ack
clt_send_mess_ack-Silent id e w =
    Silent-trans (connect-Silent e w)
      (send_over-Silent (send_mess_ack_op ∷ decimal id ∷ []) (aux_connect_clt_listen_thread e w))

next_peer_lt :
    (ps : List Peer) (n : ℕ)
    → (next_peer none ps).0 ≡ some n
    → length (next_peer none ps).1 < length ps
unfolding next_peer
next_peer_lt [] n h = absurd (cc)
next_peer_lt (refuses ∷ ps) n h = omega arith
next_peer_lt (accepts k ∷ ps) n h = omega arith

-- A connection that is made uses up a listening thread.
connect_uses :
    (e : Entry) (w : World) (n : ℕ)
    → w.beyond ≡ none
    → (aux_connect_clt_listen_thread e w).result ≡ some n
    → length (aux_connect_clt_listen_thread e w).world.peers < length w.peers
unfolding aux_connect_clt_listen_thread io_op
connect_uses e w n ends =
    if_elim (λ (c : Connection). c.result ≡ some n → length c.world.peers < length w.peers)
      (is_neg (io_op e Mode.read w).result) (λ _ h. absurd (cc))
      (λ _ h. rw ends (next_peer_lt w.peers n (rw ends at h)))

unconnected :
    (m : Message) (e : Entry) (w : World)
    → (aux_connect_clt_listen_thread e w).result ≡ none
    → int_eq (clt_send_message m e w).result (pos 0) ≡ false
unfolding clt_send_message send_over
unconnected m e w h = ground (arith, h)

-- So does a message that was sent.
clt_send_message_uses :
    (m : Message) (e : Entry) (w : World)
    → w.beyond ≡ none
    → int_eq (clt_send_message m e w).result (pos 0) ≡ true
    → length (clt_send_message m e w).world.peers < length w.peers
unfolding clt_send_message
clt_send_message_uses m e w ends h =
    elim (Option-cases (aux_connect_clt_listen_thread e w).result) [
      | inl gone ↦ let not_sent = unconnected m e w gone in absurd (cc)
      | inr (n, made) ↦
          let c = aux_connect_clt_listen_thread e w in
          let strings = send_message_op ∷ m.sender ∷ decimal m.id ∷ m.content ∷ [] in
          let used = connect_uses e w n ends made in
          let over = (send_over-Silent strings c).peers in
          let r = send_over strings c in
          if_elim (λ (io : Io). length io.world.peers < length w.peers) r.0 {x = r.1}
            {y = record r.1 { result = gen_err_any }} (λ _. omega (arith, used, over))
            (λ _. omega (arith, used, over))
    ]

acknowledge-Silent : (s : Stack) (pend : Entry) (w : World) → Silent w (acknowledge s pend w)
unfolding acknowledge io_op
acknowledge-Silent s pend w =
    let deleted = io_op pend Mode.delete w in
    Silent-trans (same w deleted.world refl refl refl refl)
      (clt_send_mess_ack-Silent _ _ deleted.world)

-- a round that sends a message
round_sent :
    (s : Stack) (fuel : ℕ) (pend recipient : Entry) (w : World)
    → let next = db_get_pend_msg pend w.fs in
      let sent = clt_send_message next.1.msg recipient w in
      int_eq next.0 dbms_success ≡ true
      → int_eq sent.result (pos srv_success) ≡ true
      → send_pending s (suc fuel) pend recipient w
        ≡ send_pending s fuel next.1 sent.entry (acknowledge s next.1 sent.world)
unfolding send_pending
round_sent s fuel pend recipient w one went = ground (arith, one, went)

-- The loop ends once there are more rounds than listening threads to connect to.
send_pending-Silent :
    (s : Stack) (fuel : ℕ) (pend recipient : Entry) (w : World)
    → w.beyond ≡ none
    → length w.peers < fuel
    → (code : ℤ) × (w' : World) × (send_pending s fuel pend recipient w ≡ some (code, w'))
      × Silent w w'
unfolding send_pending io_op
send_pending-Silent s zero pend recipient w ends enough = absurd (omega arith)
send_pending-Silent s (suc fuel) pend recipient w ends enough =
    let next = db_get_pend_msg pend w.fs in
    let sent = clt_send_message next.1.msg recipient w in
    let silent = clt_send_message-Silent next.1.msg recipient w in
    elim (Bool-cases (int_eq next.0 dbms_success)) [
      | inr none_left ↦
          (pos srv_success, w, ground (arith, none_left), same w w refl refl refl refl)
      | inl one ↦ elim (Bool-cases (int_eq sent.result (pos srv_success))) [
        | inr refused ↦
            let marked = io_op (disconnected sent.entry) Mode.modify sent.world in
            (
              pos srv_err_send_any,
              marked.world,
              ground (arith, one, refused),
              Silent-trans silent (same sent.world marked.world refl refl refl refl),
            )
        | inl went ↦
            let used = clt_send_message_uses next.1.msg recipient w ends went in
            let acked = acknowledge-Silent s next.1 sent.world in
            let (code, w', done, rest) =
              send_pending-Silent s fuel next.1 sent.entry (acknowledge s next.1 sent.world)
                (acked.beyond ∙ (silent.beyond ∙ ends)) (omega (arith, used, acked.peers)) in
            (
              code,
              w',
              round_sent s fuel pend recipient w one went ∙ done,
              Silent-trans silent (Silent-trans acked rest),
            )
      ]
    ]

pub aux_connect_send_pend_msgs-Silent :
    (s : Stack) (fuel : ℕ) (pend : Entry) (w : World)
    → w.beyond ≡ none
    → length w.peers < fuel
    → (code : ℤ) × (w' : World) × (aux_connect_send_pend_msgs s fuel pend w ≡ some (code, w'))
      × Silent w w'
unfolding aux_connect_send_pend_msgs io_op
aux_connect_send_pend_msgs-Silent s fuel pend w ends enough =
    let r = io_op (user_entry s.entry pend.username) Mode.read w in
    let (code, w', done, silent) = send_pending-Silent s fuel pend r.entry r.world ends enough in
    elim (Bool-cases (is_neg r.result)) [
      | inl failed ↦ (dbms_err_any, r.world, rw failed refl, same w r.world refl refl refl refl)
      | inr read ↦
          (code, w', rw read done, Silent-trans (same w r.world refl refl refl refl) silent)
    ]
