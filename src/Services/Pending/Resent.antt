-- ===== src/Services/Pending/Resent.antt =====
-- `aux_connect_send_pend_msgs` of src/services.c where no file can be deleted.
use ds_lab_assignment.Prelude.{
  ℕ, zero, suc, ◌^◌, ◌<◌, ◌≡◌, refl, sym, ◌∙◌, ap, List, [], ◌∷◌, ◌++◌, append_assoc, append-nil,
  none, some, pos, arith,
}
use mathlib.Core.Path.{subst}
use ds_lab_assignment.Util.Codes.{dbms_success, srv_err_send_any}
use ds_lab_assignment.Util.Types.{Entry, EntryType, Mode}
use ds_lab_assignment.Dbms.Fs.{image, file, Entries, enoent, ok, err, walk}
use ds_lab_assignment.Dbms.Paths.Laws.{NoSlash}
use ds_lab_assignment.Dbms.Readable.{read_ud}
use ds_lab_assignment.Dbms.Account.{data_at, Account}
use ds_lab_assignment.Services.World.{Peer, accepts, refuses, World, Stack, io_op, user_entry}
use ds_lab_assignment.Dbms.Ops.{db_get_pend_msg}
use ds_lab_assignment.Services.Client.{clt_send_message}
use ds_lab_assignment.Services.Client.Laws.{message_frame}
use ds_lab_assignment.Services.Pending.{
  acknowledge, send_pending, aux_connect_send_pend_msgs, disconnected,
}
use ds_lab_assignment.Services.Pending.Undeletable.{Undeletable, first_of, found_first}
use ds_lab_assignment.Services.Pending.Again.{
  transmitted, transmitted_beyond, refused, acknowledged,
}

-- so many copies
abbrev pub copies {ℓ} : {A : Type ℓ} → ℕ → A → List A
copies zero x = []
copies (suc n) x = x ∷ copies n x

round_again :
    (s : Stack) (fuel : ℕ) (pend recipient e m : Entry) (w w1 : World)
    → db_get_pend_msg pend w.fs ≡ (dbms_success, m)
    → clt_send_message m.msg recipient w ≡ record { result = pos 0; entry = e; world = w1 }
    → send_pending s (suc fuel) pend recipient w ≡ send_pending s fuel m e (acknowledge s m w1)
unfolding send_pending
round_again s fuel pend recipient e m w w1 next sent = ground (arith, next, sent)

module _ (s : Stack) (e m : Entry) (more : Entries) (own : e.username ≡ m.username)
    (is_ud : e.type ≡ EntryType.ud) (is_msg : m.type ≡ EntryType.p_msg) (name : NoSlash m.username)
    (sender : NoSlash m.msg.sender) (small : m.msg.id < 2 ^ 32) where
  -- The loop, behind any number of rounds.
  loop_resent :
      (n : ℕ) (peers : List Peer) (pend recipient : Entry) (w : World)
      → pend.username ≡ m.username
      → pend.type ≡ EntryType.p_msg
      → recipient.username ≡ m.username
      → recipient.type ≡ EntryType.ud
      → Undeletable w.fs
      → Account w.fs m.username e (first_of m more)
      → walk (data_at m.msg.sender) w.fs.root ≡ err enoent
      → w.peers ≡ copies n (accepts 4) ++ refuses ∷ peers
      → (w' : World) × (send_pending s (suc n) pend recipient w ≡ some (pos srv_err_send_any, w'))
        × (w'.frames ≡ w.frames ++ copies n (message_frame e m.msg))
  unfolding send_pending io_op
  loop_resent zero peers pend recipient w at is_pend to to_ud k a gone reached =
      let next =
        found_first w.fs pend e m more k (subst NoSlash (sym at) name) is_pend small
          (subst (λ u. Account w.fs u e (first_of m more)) (sym at) a) in
      let unsent =
        refused recipient e (subst NoSlash (sym to) name) to_ud m.msg peers w k
          (subst (λ u. walk (data_at u) w.fs.root ≡ ok (file (image e))) (sym to) a.stored)
          reached in
      (
        (io_op (disconnected e) Mode.modify (record w { peers = peers })).world,
        ground (arith, next, unsent),
        sym (append-nil w.frames),
      )
  loop_resent (suc n) peers pend recipient w at is_pend to to_ud k a gone reached =
      let next =
        found_first w.fs pend e m more k (subst NoSlash (sym at) name) is_pend small
          (subst (λ u. Account w.fs u e (first_of m more)) (sym at) a) in
      let sent =
        transmitted recipient e (subst NoSlash (sym to) name) to_ud m.msg
          (copies n (accepts 4) ++ refuses ∷ peers) w k
          (subst (λ u. walk (data_at u) w.fs.root ≡ ok (file (image e))) (sym to) a.stored)
          reached in
      let frame = message_frame e m.msg in
      let w1 = record w {
        peers = copies n (accepts 4) ++ refuses ∷ peers;
        frames = w.frames ++ frame ∷ [];
      } in
      let again = acknowledged s w1 e m more k name is_msg sender gone a in
      let (w', done, frames) =
        loop_resent n peers m e (acknowledge s m w1) refl is_msg own is_ud again.undeletable
          again.account again.gone again.peers in
      (
        w',
        round_again s (suc n) pend recipient e m w w1 next sent ∙ done,
        (frames ∙ ap (λ fs. fs ++ copies n frame) again.frames)
            ∙ append_assoc w.frames (frame ∷ []) (copies n frame),
      )

  -- All calls that read succeed and no file can be deleted. The pending message `m`, whose ID is an unsigned
  -- int, comes first in the directory of a user whose name has no slash; its sender's name has none
  -- either, and the sender has no account any more. The user's listening thread takes whole messages
  -- on `n` connections and then can not be reached. Behind a CONNECT the loop ends, with one round of fuel
  -- more than there are connections, and the user has been sent the one message `n` times.
  pub aux_connect_send_pend_msgs_resent :
      (n : ℕ) (peers : List Peer) (pend : Entry) (w : World)
      → pend.username ≡ m.username
      → pend.type ≡ EntryType.p_msg
      → Undeletable w.fs
      → Account w.fs m.username e (first_of m more)
      → walk (data_at m.msg.sender) w.fs.root ≡ err enoent
      → w.peers ≡ copies n (accepts 4) ++ refuses ∷ peers
      → (w' : World) × (aux_connect_send_pend_msgs s (suc n) pend w
          ≡ some (pos srv_err_send_any, w'))
        × (w'.frames ≡ w.frames ++ copies n (message_frame e m.msg))
  unfolding aux_connect_send_pend_msgs
  aux_connect_send_pend_msgs_resent n peers pend w at is_pend k a gone reached =
      let (w', done, frames) = loop_resent n peers pend e w at is_pend own is_ud k a gone reached in
      let plain = subst NoSlash (sym at) name in
      let stored =
        subst (λ u. walk (data_at u) w.fs.root ≡ ok (file (image e))) (sym at) a.stored in
      let read =
        read_ud w.fs (user_entry s.entry pend.username) plain refl (k.readable _) e stored in
      (w', ground (arith, read, done), frames)

  loop_endless :
      (spare fuel : ℕ) (pend recipient : Entry) (w : World)
      → pend.username ≡ m.username
      → pend.type ≡ EntryType.p_msg
      → recipient.username ≡ m.username
      → recipient.type ≡ EntryType.ud
      → Undeletable w.fs
      → Account w.fs m.username e (first_of m more)
      → walk (data_at m.msg.sender) w.fs.root ≡ err enoent
      → w.peers ≡ []
      → w.beyond ≡ some (suc (suc (suc (suc spare))))
      → send_pending s fuel pend recipient w ≡ none
  loop_endless spare zero pend recipient w at is_pend to to_ud k a gone reached endless =
      unfold send_pending in refl
  loop_endless spare (suc fuel) pend recipient w at is_pend to to_ud k a gone reached endless =
      let next =
        found_first w.fs pend e m more k (subst NoSlash (sym at) name) is_pend small
          (subst (λ u. Account w.fs u e (first_of m more)) (sym at) a) in
      let sent =
        transmitted_beyond recipient e (subst NoSlash (sym to) name) to_ud m.msg spare w k
          (subst (λ u. walk (data_at u) w.fs.root ≡ ok (file (image e))) (sym to) a.stored) reached
          endless in
      let w1 = record w { peers = []; frames = w.frames ++ message_frame e m.msg ∷ [] } in
      let again = acknowledged s w1 e m more k name is_msg sender gone a in
      round_again s fuel pend recipient e m w w1 next sent
      ∙ loop_endless spare fuel m e (acknowledge s m w1) refl is_msg own is_ud again.undeletable
          again.account again.gone again.peers (again.beyond ∙ endless)

  -- In the same database, where the user's listening thread takes whole messages without end, no fuel is
  -- enough for the loop: it sends the one message for ever.
  pub aux_connect_send_pend_msgs_endless :
      (spare fuel : ℕ) (pend : Entry) (w : World)
      → pend.username ≡ m.username
      → pend.type ≡ EntryType.p_msg
      → Undeletable w.fs
      → Account w.fs m.username e (first_of m more)
      → walk (data_at m.msg.sender) w.fs.root ≡ err enoent
      → w.peers ≡ []
      → w.beyond ≡ some (suc (suc (suc (suc spare))))
      → aux_connect_send_pend_msgs s fuel pend w ≡ none
  unfolding aux_connect_send_pend_msgs
  aux_connect_send_pend_msgs_endless spare fuel pend w at is_pend k a gone reached endless =
      let looped = loop_endless spare fuel pend e w at is_pend own is_ud k a gone reached endless in
      let stored =
        subst (λ u. walk (data_at u) w.fs.root ≡ ok (file (image e))) (sym at) a.stored in
      let read =
        read_ud w.fs (user_entry s.entry pend.username) (subst NoSlash (sym at) name) refl
          (k.readable _) e stored in
      ground (arith, read, looped)
