-- ===== src/Services/Replies.antt =====
-- What the services of src/services.c may reply, whatever the database, the sockets and the stack hold
-- and whichever call fails.
pub mod Transmission
pub mod Send
pub mod Connect
use ds_lab_assignment.Prelude.{
  ℕ, ◌⊎◌, take, leb, ◌+◌, ◌≤◌, ◌<◌, ◌≡◌, refl, sym, ◌∙◌, ap, Bool, true, false, Bool-cases, inl,
  inr, List, [], ◌∷◌, ◌++◌, append-nil, append_assoc, length, Option, none, some, ℤ, Bytes, if_elim,
  if◌then◌else◌, is_neg, int_eq, arith, not, ◌==◌, pos,
}
use ds_lab_assignment.Util.Codes.{
  gen_success, gen_err_any, srv_success, srv_err_reg_usr_already_reg, srv_err_unreg_any,
  dbms_err_exists, c_true, c_false, srv_err_cn_any, dbms_err_not_exists, status_cn, status_dcn,
}
use ds_lab_assignment.Util.Decimal.{decimal}
use ds_lab_assignment.Util.StrToNum.{CastType, str_to_num}
use ds_lab_assignment.Util.Types.{Request, Mode}
use ds_lab_assignment.Dbms.Ops.{db_creat_usr_tbl, db_user_exists, db_del_usr_tbl}
use ds_lab_assignment.Services.World.{
  Peer, World, Stack, receive, reply_bytes, Io, io_op, user_entry,
}
use ds_lab_assignment.Services.Users.Sessions.{offline}
use ds_lab_assignment.Services.Users.{
  Answer, replied, new_user, written_back, connect_user, connect_answer, disconnect_answer,
  srv_register, unregister_user, srv_unregister, srv_disconnect,
}

-- The client's socket sees nothing between the two worlds, and connections to listening threads are only
-- used up.
pub record Silent (w w' : World) : Type 0 where
  pub replies : w'.replies ≡ w.replies
  pub writable : w'.writable ≡ w.writable
  pub beyond : w'.beyond ≡ w.beyond
  pub peers : length w'.peers ≤ length w.peers

-- No reply, a code up to 3, or the code 0 and a message ID with its terminating zero, or what the
-- socket takes of them before it fails.
pub data Reply : List Bytes → Type 0 where
  nothing : Reply []
  one : (c : ℕ) → c ≤ 3 → Reply ((c ∷ []) ∷ [])
  accepted : (id : ℕ) → Reply ((0 ∷ []) ∷ (decimal id ++ 0 ∷ []) ∷ [])
  cut :
      (id k : ℕ)
      → k < length (decimal id ++ 0 ∷ [])
      → Reply ((0 ∷ []) ∷ take k (decimal id ++ 0 ∷ []) ∷ [])

pub record Replied (w w' : World) : Type 0 where
  pub added : List Bytes
  pub replies : w'.replies ≡ w.replies ++ added
  pub reply : Reply added
  pub beyond : w'.beyond ≡ w.beyond
  pub peers : length w'.peers ≤ length w.peers

pub Silent-trans : {u v w : World} → Silent u v → Silent v w → Silent u w
Silent-trans a b = record {
  replies = b.replies ∙ a.replies;
  writable = b.writable ∙ a.writable;
  beyond = b.beyond ∙ a.beyond;
  peers = omega (arith, a.peers, b.peers);
}

pub Silent-Replied : {w w' : World} → Silent w w' → Replied w w'
Silent-Replied {w} s = record {
  added = [];
  replies = s.replies ∙ sym (append-nil w.replies);
  reply = nothing;
  beyond = s.beyond;
  peers = s.peers;
}

pub Replied-before : {u v w : World} → Silent u v → Replied v w → Replied u w
Replied-before s r = record {
  added = r.added;
  replies = r.replies ∙ ap (λ rs. rs ++ r.added) s.replies;
  reply = r.reply;
  beyond = r.beyond ∙ s.beyond;
  peers = omega (arith, s.peers, r.peers);
}

pub Replied-after : {u v w : World} → Replied u v → Silent v w → Replied u w
Replied-after r s = record {
  added = r.added;
  replies = s.replies ∙ r.replies;
  reply = r.reply;
  beyond = s.beyond ∙ r.beyond;
  peers = omega (arith, s.peers, r.peers);
}

-- the members that the handlers change before they reply
pub same :
    (w w' : World)
    → w'.replies ≡ w.replies
    → w'.writable ≡ w.writable
    → w'.beyond ≡ w.beyond
    → w'.peers ≡ w.peers
    → Silent w w'
same w w' r t b p = record {
  replies = r;
  writable = t;
  beyond = b;
  peers = omega (arith, ap length p);
}

-- All was written, nothing, or a part.
abbrev pub Wrote : Bytes → World → ℤ × World → Type 0
Wrote bytes w (code, w') =
    ((code ≡ gen_success) × (w'.replies ≡ w.replies ++ bytes ∷ []))
    ⊎ ((code ≡ gen_err_any) × (w'.replies ≡ w.replies))
    ⊎ ((code ≡ gen_err_any)
        × ((k : ℕ) × (0 < k) × (k < length bytes) × (w'.replies ≡ w.replies ++ take k bytes ∷ [])))

pub reply_bytes_lem :
    (bytes : Bytes) (w : World)
    → Wrote bytes w (reply_bytes bytes w)
      × ((reply_bytes bytes w).1.peers ≡ w.peers)
      × ((reply_bytes bytes w).1.beyond ≡ w.beyond)
unfolding reply_bytes
reply_bytes_lem bytes w =
    let P = λ (r : ℤ × World). Wrote bytes w r × (r.1.peers ≡ w.peers) × (r.1.beyond ≡ w.beyond) in
    if_elim P w.writable (λ _. (inl (refl, refl), refl, refl))
      λ _.
        if_elim P (leb (length bytes) w.room) (λ _. (inl (refl, refl), refl, refl))
          λ short.
            if_elim P (w.room == 0) (λ _. (inr (inl (refl, refl)), refl, refl))
              λ some_room. (
                inr (inr (refl, (w.room, ground (arith, some_room), ground (arith, short), refl))),
                refl,
                refl,
              )

pub replied_lem : (c : ℕ) (w : World) → c ≤ 3 → Replied w (replied c w)
unfolding replied
replied_lem c w small =
    let (wrote, peers, beyond) = reply_bytes_lem (c ∷ []) w in
    elim wrote [
      | inl (_, all) ↦ record {
        added = (c ∷ []) ∷ [];
        replies = all;
        reply = one c small;
        beyond = beyond;
        peers = omega (arith, ap length peers);
      }
      | inr (inl (_, none_went)) ↦ record {
        added = [];
        replies = none_went ∙ sym (append-nil w.replies);
        reply = nothing;
        beyond = beyond;
        peers = omega (arith, ap length peers);
      }
      | inr (inr (_, (k, more, less, _))) ↦ absurd (omega (arith, more, less))
    ]

-- An answer with a code up to 3, before which nothing was sent.
pub record Answered (w : World) (a : Answer) : Type 0 where
  pub small : a.reply ≤ 3
  pub silent : Silent w a.world

pub Answered-Replied : {w : World} (a : Answer) → Answered w a → Replied w (replied a.reply a.world)
Answered-Replied a d = Replied-before d.silent (replied_lem a.reply a.world d.small)

pub written_back_lem :
    (not_exists any : ℕ) (w : World) (r : Io)
    → not_exists ≤ 3
    → any ≤ 3
    → Silent w r.world
    → Answered w (written_back not_exists any r)
unfolding written_back
written_back_lem not_exists any w r a b s = record { small = ground arith; silent = s }

pub srv_register_lem :
    (s : Stack) (request : Request) (w : World) → Replied w (srv_register s request w)
unfolding srv_register receive
srv_register_lem s request w =
    let r = receive request.username w in
    let made = db_creat_usr_tbl (new_user s r.string) r.world.fs in
    if_elim (Replied w) (is_neg r.result) (λ _. Silent-Replied (same w r.world refl refl refl refl))
      λ _. Replied-before (same w (record r.world { fs = made.1 }) refl refl refl refl) (
        replied_lem _ _ (
          if_elim (λ c. c ≤ 3) (int_eq made.0 dbms_err_exists) (λ _. omega arith)
            (λ _. omega arith)))

unregister_user_lem : (username : Bytes) (w : World) → Replied w (unregister_user username w)
unfolding unregister_user
unregister_user_lem username w =
    let exists = db_user_exists username w.fs in
    let gone = db_del_usr_tbl username w.fs in
    if_elim (Replied w) (int_eq exists c_true)
      (λ _. Replied-before (same w (record w { fs = gone.1 }) refl refl refl refl) (
        replied_lem _ _
          (if_elim (λ c. c ≤ 3) (is_neg gone.0) (λ _. omega arith) (λ _. omega arith))))
      λ _.
        if_elim (Replied w) (int_eq exists c_false) (λ _. replied_lem _ w (omega arith))
          λ _. replied_lem _ w (omega arith)

pub srv_unregister_lem : (request : Request) (w : World) → Replied w (srv_unregister request w)
unfolding srv_unregister receive
srv_unregister_lem request w =
    let r = receive request.username w in
    let read = same w r.world refl refl refl refl in
    if_elim (Replied w) (is_neg r.result) (λ _. Silent-Replied read)
      λ _. Replied-before read (unregister_user_lem r.string r.world)

disconnect_answer_lem : (r : Io) → Answered r.world (disconnect_answer r)
unfolding disconnect_answer io_op
disconnect_answer_lem r =
    let still = same r.world r.world refl refl refl refl in
    let wrote = io_op (offline r.entry) Mode.modify r.world in
    if_elim (Answered r.world) (int_eq r.result dbms_err_not_exists)
      (λ _. record { small = omega arith; silent = still })
      λ _.
        if_elim (Answered r.world) (is_neg r.result)
          (λ _. record { small = omega arith; silent = still })
          λ _.
            if_elim (Answered r.world) (r.entry.user.status == status_dcn)
              (λ _. record { small = omega arith; silent = still })
              λ _.
                written_back_lem 1 3 r.world wrote (omega arith) (omega arith)
                  (same r.world wrote.world refl refl refl refl)

pub srv_disconnect_lem :
    (s : Stack) (request : Request) (w : World) → Replied w (srv_disconnect s request w)
unfolding srv_disconnect receive io_op
srv_disconnect_lem s request w =
    let r = receive request.username w in
    let found = io_op (user_entry s.entry r.string) Mode.read r.world in
    if_elim (Replied w) (is_neg r.result) (λ _. Silent-Replied (same w r.world refl refl refl refl))
      λ _.
        Replied-before (same w found.world refl refl refl refl)
          (Answered-Replied _ (disconnect_answer_lem found))
