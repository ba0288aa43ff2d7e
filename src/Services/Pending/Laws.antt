-- ===== src/Services/Pending/Laws.antt =====
-- The loop of `aux_connect_send_pend_msgs` of src/services.c, where all listening threads take what
-- they are sent and no call of the file system fails.
use ds_lab_assignment.Prelude.{
  ℕ, zero, suc, ◌<◌, ◌≡◌, refl, sym, ◌∙◌, List, [], ◌∷◌, ◌++◌, append_assoc, append-nil, Option,
  none, some, ℤ, length, Bytes, pos, arith, str_eq_refl,
}
use mathlib.Core.Path.{subst}
use ds_lab_assignment.Util.Types.{Entry, EntryType}
use ds_lab_assignment.Util.Decimal.{decimal}
use ds_lab_assignment.Dbms.Fs.{Fs, image, file, end, walk, child, drop_child}
use ds_lab_assignment.Dbms.Paths.Laws.{NoSlash}
use ds_lab_assignment.Dbms.Remove.Laws.{NoFaults}
use ds_lab_assignment.Dbms.Account.{Account, SameOthers, data_at}
use ds_lab_assignment.Dbms.Ops.Laws.{read_userdata}
use ds_lab_assignment.Dbms.Deletions.{msg-anyone-Apart, drop_child-none, delete_Updated, get_first}
use ds_lab_assignment.Services.World.{Peer, World, Stack, user_entry}
use ds_lab_assignment.Services.Client.Laws.{
  message_frame, clt_send_message_lem, clt_send_mess_ack_lem, clt_send_mess_ack_refused,
  clt_send_mess_ack_missing,
}
use ds_lab_assignment.Services.Client.{clt_send_mess_ack}
use ds_lab_assignment.Services.Pending.{acknowledge, send_pending, aux_connect_send_pend_msgs}
use ds_lab_assignment.Services.Pending.Mail.{
  Mail, stored_in, ack_peers, acks, willing, delivered, Held, Held-same, IsPending, IsPending-same,
  get_none,
}

-- the acknowledgement to the sender of a message, who may have no entry
pub ack_lem :
    (s : Stack) (w : World) (from : Bytes) (o : Option Entry) (spare : Option ℕ) (id : ℕ)
    (rest : List Peer)
    → NoFaults w.fs.faulty
    → NoSlash from
    → Held w.fs from o
    → w.peers ≡ ack_peers o spare ++ rest
    → (clt_send_mess_ack id (user_entry s.entry from) w).world
      ≡ record w { peers = rest; frames = w.frames ++ acks o spare id }
ack_lem s w from none spare id rest sound name held reached = ground (
  arith,
  clt_send_mess_ack_missing (user_entry s.entry from) w id sound name refl held,
  append-nil w.frames,
)
ack_lem s w from (some a) none id rest sound name held reached = ground (
  arith,
  clt_send_mess_ack_refused (user_entry s.entry from) a w sound name refl held id rest reached,
  append-nil w.frames,
)
ack_lem s w from (some a) (some k) id rest sound name held reached = ground (
  arith,
  clt_send_mess_ack_lem (user_entry s.entry from) a w sound name refl held id k rest reached,
)

-- What the loop leaves behind.
pub record Sent (w : World) (e : Entry) (xs : List Mail) (peers : List Peer)
    (r : Option (ℤ × World)) : Type 0 where
  pub after : Fs
  pub result :
      r ≡ some (pos 0, record w { fs = after; peers = peers; frames = w.frames ++ delivered e xs })
  pub account : Account after e.username e end
  pub others : SameOthers e.username w.fs after
  pub sound : NoFaults after.faulty

module _ (s : Stack) (e : Entry) (name : NoSlash e.username) (is_ud : e.type ≡ EntryType.ud)
    (peers : List Peer) where
  -- one round of the loop
  round_lem :
      (fuel : ℕ) (x : Mail) (xs : List Mail) (given : Entry) (w : World)
      → NoFaults w.fs.faulty
      → given.type ≡ EntryType.p_msg
      → given.username ≡ e.username
      → Account w.fs e.username e (stored_in (x ∷ xs))
      → IsPending w.fs e.username (x ∷ xs)
      → w.peers ≡ willing (x ∷ xs) peers
      → (fs' : Fs) × (send_pending s (suc fuel) given e w
          ≡ send_pending s fuel x.letter e (record w {
            fs = fs';
            peers = willing xs peers;
            frames =
                (w.frames ++ message_frame e x.letter.msg ∷ [])
                ++ acks x.sender x.ack_spare x.letter.msg.id;
          }))
        × Account fs' e.username e (stored_in xs)
        × SameOthers e.username w.fs fs'
        × NoFaults fs'.faulty
        × IsPending fs' e.username xs
  unfolding send_pending acknowledge
  round_lem fuel x xs given w sound is_msg to a (t, n, i, d, from, held, p) reached =
      let m = x.letter in
      let all = stored_in (x ∷ xs) in
      let first =
        get_first w.fs given e m (stored_in xs) sound (subst NoSlash (sym to) name) is_msg i
          (subst (λ u. Account w.fs u e all) (sym to) a) in
      let there : child (decimal m.msg.id) all ≡ some (file (image m)) =
        unfold child in ground (arith, str_eq_refl (decimal m.msg.id)) in
      let (gone, edited) =
        delete_Updated w.fs m e all sound (subst NoSlash (sym n) name) t
          (subst (λ u. Account w.fs u e all) (sym n) a) m there in
      let others : drop_child (decimal m.msg.id) all ≡ stored_in xs =
        unfold drop_child in
        ground (
          arith,
          str_eq_refl (decimal m.msg.id),
          drop_child-none (decimal m.msg.id) (stored_in xs) d,
        ) in
      let sent =
        clt_send_message_lem e e w sound name is_ud a.stored m.msg x.spare
          (ack_peers x.sender x.ack_spare ++ willing xs peers) reached in
      let same : (v : Bytes) → walk (data_at v) gone.after.root ≡ walk (data_at v) w.fs.root =
        λ v. edited.apart (data_at v) (msg-anyone-Apart m.username v m.msg.id) in
      let w' = record w {
        fs = gone.after;
        peers = ack_peers x.sender x.ack_spare ++ willing xs peers;
        frames = w.frames ++ message_frame e m.msg ∷ [];
      } in
      let acked =
        ack_lem s w' m.msg.sender x.sender x.ack_spare m.msg.id (willing xs peers) gone.sound from
          (Held-same w.fs gone.after m.msg.sender x.sender (same m.msg.sender) held) refl in
      (
        gone.after,
        ground (arith, first, sent, gone.result, acked),
        subst (λ u. Account gone.after u e (stored_in xs)) n
            (subst (λ es. Account gone.after m.username e es) others gone.account),
        subst (λ u. SameOthers u w.fs gone.after) n gone.others,
        gone.sound,
        IsPending-same w.fs gone.after e.username xs same p,
      )

  -- the loop, with fuel for each message and the end
  send_pending_lem :
      (xs : List Mail) (fuel : ℕ) (given : Entry) (w : World)
      → length xs < fuel
      → NoFaults w.fs.faulty
      → given.type ≡ EntryType.p_msg
      → given.username ≡ e.username
      → Account w.fs e.username e (stored_in xs)
      → IsPending w.fs e.username xs
      → w.peers ≡ willing xs peers
      → Sent w e xs peers (send_pending s fuel given e w)
  unfolding send_pending
  send_pending_lem xs zero given w l sound is_msg to a p reached = absurd (omega arith)
  send_pending_lem [] (suc fuel) given w l sound is_msg to a p reached =
      let none_left =
        get_none given w.fs sound (subst NoSlash (sym to) name) is_msg e
          (subst (λ u. Account w.fs u e end) (sym to) a) in
      record {
        after = w.fs;
        result = ground (arith, none_left, reached, append-nil w.frames);
        account = a;
        others = λ v q ne. refl;
        sound = sound;
      }
  send_pending_lem (x ∷ xs) (suc fuel) given w l sound is_msg to a p reached =
      let (fs', step, account, others, sound', p') =
        round_lem fuel x xs given w sound is_msg to a p reached in
      let w' = record w {
        fs = fs';
        peers = willing xs peers;
        frames =
            (w.frames ++ message_frame e x.letter.msg ∷ [])
            ++ acks x.sender x.ack_spare x.letter.msg.id;
      } in
      let rest =
        send_pending_lem xs fuel x.letter w' (omega arith) sound' p.0 p.1 account p' refl in
      record {
        after = rest.after;
        result = ground (
          arith,
          step,
          rest.result,
          append_assoc (w.frames ++ message_frame e x.letter.msg ∷ [])
              (acks x.sender x.ack_spare x.letter.msg.id) (delivered e xs),
          append_assoc w.frames (message_frame e x.letter.msg ∷ [])
              (acks x.sender x.ack_spare x.letter.msg.id ++ delivered e xs),
        );
        account = rest.account;
        others = λ v q ne. rest.others v q ne ∙ others v q ne;
        sound = rest.sound;
      }

  -- No call of the file system fails, the username holds no slash, each pending message has an ID
  -- of its own, and the user's listening thread takes what it is sent; a sender may have no entry or
  -- a thread that refuses. With fuel greater than the number of pending messages,
  -- `aux_connect_send_pend_msgs` ends and returns 0. Each message went to the user, in the order
  -- of the directory, and behind it its acknowledgement to its sender, if
  -- the sender has an entry and a thread that takes it. No message is left
  -- pending; the user's entry and other users' tables are as they were.
  pub aux_connect_send_pend_msgs_lem :
      (xs : List Mail) (fuel : ℕ) (given : Entry) (w : World)
      → length xs < fuel
      → NoFaults w.fs.faulty
      → given.type ≡ EntryType.p_msg
      → given.username ≡ e.username
      → Account w.fs e.username e (stored_in xs)
      → IsPending w.fs e.username xs
      → w.peers ≡ willing xs peers
      → (fs' : Fs) × (aux_connect_send_pend_msgs s fuel given w
          ≡ some (pos 0, record w { fs = fs'; peers = peers; frames = w.frames ++ delivered e xs }))
        × Account fs' e.username e end
        × SameOthers e.username w.fs fs'
        × NoFaults fs'.faulty
  unfolding aux_connect_send_pend_msgs
  aux_connect_send_pend_msgs_lem xs fuel given w l sound is_msg to a p reached =
      let r = send_pending_lem xs fuel given w l sound is_msg to a p reached in
      (
        r.after,
        ground (
          arith,
          to,
          read_userdata w.fs sound (user_entry s.entry e.username) name refl e a.stored,
          r.result,
        ),
        r.account,
        r.others,
        r.sound,
      )
