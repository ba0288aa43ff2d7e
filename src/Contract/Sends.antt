-- ===== src/Contract/Sends.antt =====
-- SEND of src/services.c against the contract, where no call of the file system fails and a listening
-- thread answers exactly if its user is connected.
use ds_lab_assignment.Prelude.{
  ◌≡◌, refl, sym, ◌∙◌, true, List, [], ◌∷◌, ◌++◌, append-nil, Option, none, some, Bytes, arith, inl,
  inr,
}
use mathlib.Core.Path.{subst}
use ds_lab_assignment.Util.Types.{Request}
use ds_lab_assignment.Dbms.Paths.Laws.{NoSlash}
use ds_lab_assignment.Dbms.Tables.{db_user_exists_lem}
use ds_lab_assignment.Services.World.{Peer, accepts, World, Stack}
use ds_lab_assignment.Services.Send.{aux_send_init, srv_send_request}
use ds_lab_assignment.Contract.{
  User, Office, with_user, counted, Call, Meeting, post, post-cases, posted, handle,
}
use ds_lab_assignment.Contract.Holds.{files, Keeps, HoldsAt, Holds}
use ds_lab_assignment.Contract.Mails.{ack_meets}
use ds_lab_assignment.Contract.Accounts.{Lucky, Meets, Meets-path}
use ds_lab_assignment.Services.Send.Laws.{srv_send-Unknown}
use ds_lab_assignment.Dbms.Account.{Unknown}
use ds_lab_assignment.Contract.Post.{post_peers, send_request, post_on}
use ds_lab_assignment.Contract.Waits.{post_off, post_taken}

module _ (s : Stack) (m : Meeting) (lucky : Lucky s m) (w : World) (office : Office)
    (h : Holds w.fs office) (writable : w.writable ≡ true) (base : Request)
    (from to content : Bytes) (from_slash : NoSlash from) (slash : NoSlash to)
    (place : w.fs.place ≡ m.place) (peers : List Peer) where
  abbrev request : Request
  request = send_request base from to content

  -- the sender is not registered
  post_nobody :
      Unknown w.fs from
      → srv_send_request s request w ≡ record w { replies = w.replies ++ (1 ∷ []) ∷ [] }
  unfolding srv_send_request aux_send_init
  post_nobody absent =
      ground (arith, (db_user_exists_lem w.fs h.sound from from_slash).1 absent, writable)

  post_some :
      (sender user : User)
      → Keeps w.fs from sender
      → Keeps w.fs to user
      → w.peers ≡ post_peers from to office (some sender) (some user) ++ peers
      → Meets w (post m from to content user office) (srv_send_request s request w)
  post_some sender user here k reached = elim (post-cases m from to content user office) [
    | inl (on, same) ↦
        let met : w.peers
            ≡ accepts 4 ∷ (ack_meets (with_user to (some (counted user)) office from) ++ peers) =
          reached ∙ simp on refl in
        subst (λ out. Meets w out (srv_send_request s request w)) (sym same)
          (post_on s m lucky w office h writable base from to content from_slash slash peers sender
            user here k on met)
    | inr (inl (off, taken, same)) ↦
        subst (λ out. Meets w out (srv_send_request s request w)) (sym same)
          (post_taken s m lucky w office h writable base from to content from_slash slash sender
            user here k off taken)
    | inr (inr (off, free, same)) ↦
        subst (λ out. Meets w out (srv_send_request s request w)) (sym same)
          (post_off s m lucky w office h writable base from to content from_slash slash sender user
            here k off free place)
  ]

  post_from :
      (sender user : Option User)
      → HoldsAt w.fs from sender
      → HoldsAt w.fs to user
      → w.peers ≡ post_peers from to office sender user ++ peers
      → Meets w (posted m from to content office sender user) (srv_send_request s request w)
  post_from none user here there reached =
      Meets-path (post_nobody here)
        (record { holds = h; replies = refl; frames = sym (append-nil w.frames) })
  post_from (some sender) none here there reached =
      Meets-path
        (srv_send-Unknown s request w here.struct (files here.letters) h.sound from_slash slash
          writable here.account there)
        (record { holds = h; replies = refl; frames = sym (append-nil w.frames) })
  post_from (some sender) (some user) here there reached = post_some sender user here there reached

  pub send_meets :
      w.peers ≡ post_peers from to office (office from) (office to) ++ peers
      → Meets w (handle m (Call.send from to content) office) (srv_send_request s request w)
  unfolding handle
  send_meets = post_from (office from) (office to) (h.at from from_slash) (h.at to slash)
