-- ===== src/Contract/Post.antt =====
-- SEND of src/services.c to a user who is connected, against the contract.
use ds_lab_assignment.Prelude.{
  ℕ, ◌<◌, ◌≡◌, refl, sym, ap, ◌∙◌, if◌then◌else◌, true, List, [], ◌∷◌, ◌++◌, append_assoc, Option,
  none, some, Bytes, arith,
}
use mathlib.Core.Path.{subst}
use ds_lab_assignment.Util.Codes.{srv_success, msg_id_max_value}
use ds_lab_assignment.Util.Types.{Request}
use ds_lab_assignment.Util.Decimal.{decimal}
use ds_lab_assignment.Dbms.Paths.Laws.{NoSlash}
use ds_lab_assignment.Dbms.Account.{Account}
use ds_lab_assignment.Dbms.Tables.{db_user_exists_lem}
use ds_lab_assignment.Dbms.Ops.Laws.{read_userdata}
use ds_lab_assignment.Services.World.{Peer, accepts, World, Stack, user_entry}
use ds_lab_assignment.Services.Client.Laws.{message_frame, clt_send_message_lem}
use ds_lab_assignment.Services.Pending.Mail.{acks}
use ds_lab_assignment.Services.Pending.Laws.{ack_lem}
use ds_lab_assignment.Services.Send.{
  next_id, advanced, message_entry, aux_send_init, srv_send_request,
}
use ds_lab_assignment.Contract.{User, Office, with_user, counted, post_sent, Meeting, following}
use ds_lab_assignment.Contract.Holds.{files, Keeps, Holds, Holds-with_user}
use ds_lab_assignment.Contract.Mails.{ack_meets, acknowledges}
use ds_lab_assignment.Contract.Written.{Rewritten, rewritten}
use ds_lab_assignment.Contract.Accounts.{Lucky, Meets, Meets-path}

-- the listening threads that SEND meets
abbrev pub post_peers : Bytes → Bytes → Office → Option User → Option User → List Peer
post_peers from to office none user = []
post_peers from to office (some sender) none = []
post_peers from to office (some sender) (some user) =
    if user.connected
    then accepts 4 ∷ ack_meets (with_user to (some (counted user)) office from)
    else []

-- the request of a client that sends a message
abbrev pub send_request : Request → Bytes → Bytes → Bytes → Request
send_request base from to content = record base {
  recipient = to;
  message = record { sender = from; id = base.message.id; content = content };
}

pub next_id-following : (last : ℕ) → last < msg_id_max_value → next_id last ≡ following last
unfolding next_id
next_id-following last h = ground arith

pub following_bound : (last : ℕ) → last < msg_id_max_value → following last < msg_id_max_value
following_bound last h = ground arith

module _ (s : Stack) (m : Meeting) (lucky : Lucky s m) (w : World) (office : Office)
    (h : Holds w.fs office) (writable : w.writable ≡ true) (base : Request)
    (from to content : Bytes) (from_slash : NoSlash from) (slash : NoSlash to)
    (peers : List Peer) where
  abbrev request : Request
  request = send_request base from to content

  -- what `aux_send_init` leaves for two users who are registered
  pub count_up :
      (sender user : User)
      → Keeps w.fs from sender
      → (k : Keeps w.fs to user)
      → (r : Rewritten w.fs to (counted user) (advanced k.struct) k.letters) × (aux_send_init
            request s.entry w
          ≡ record {
            reply = srv_success;
            entry = advanced k.struct;
            world = record w { fs = r.after };
          })
  unfolding aux_send_init
  count_up sender user here k =
      let d = k.describes in
      let r =
        rewritten w.fs to user (counted user) (advanced k.struct) h.sound slash k
          (record {
            named = d.named;
            is_ud = d.is_ud;
            last = ap next_id d.last ∙ next_id-following user.last_msg_id d.bound;
            bound = following_bound user.last_msg_id d.bound;
            status = d.status;
            ip = d.ip;
            port = d.port;
          })
          refl in
      (
        r,
        ground (
          arith,
          (db_user_exists_lem w.fs h.sound from from_slash).0 here.struct (files here.letters)
              here.account,
          (db_user_exists_lem w.fs h.sound to slash).0 k.struct (files k.letters) k.account,
          read_userdata w.fs h.sound (user_entry s.entry to) slash refl k.struct k.account.stored,
          r.result,
        ),
      )

  -- the recipient is connected
  pub post_on :
      (sender user : User)
      → Keeps w.fs from sender
      → Keeps w.fs to user
      → user.connected ≡ true
      → w.peers ≡ accepts 4 ∷ (ack_meets (with_user to (some (counted user)) office from) ++ peers)
      → Meets w (post_sent from to content user office) (srv_send_request s request w)
  unfolding srv_send_request
  post_on sender user here k on reached =
      let d = k.describes in
      let e = advanced k.struct in
      let (r, init) = count_up sender user here k in
      let office' = with_user to (some (counted user)) office in
      let h1 = Holds-with_user to (some (counted user)) h r.others r.sound r.keeps in
      let msg = (message_entry s request e).msg in
      let same : msg.id ≡ following user.last_msg_id =
        ap next_id d.last ∙ next_id-following user.last_msg_id d.bound in
      let sent =
        clt_send_message_lem e e (record w { fs = r.after }) r.sound
          (subst NoSlash (sym d.named) slash) d.is_ud
          (subst (λ v. Account r.after v e (files k.letters)) (sym d.named) r.account).stored msg 0
          (ack_meets (office' from) ++ peers) reached in
      let sd = acknowledges r.after from (office' from) (h1.at from from_slash) in
      let w2 = record w {
        fs = r.after;
        peers = ack_meets (office' from) ++ peers;
        frames = w.frames ++ message_frame e msg ∷ [];
        replies = (w.replies ++ (0 ∷ []) ∷ []) ++ (decimal msg.id ++ 0 ∷ []) ∷ [];
      } in
      let acked =
        ack_lem s w2 from sd.struct sd.spare msg.id peers r.sound from_slash sd.held
          (ap (λ ps. ps ++ peers) (sym sd.meets_it)) in
      let done : srv_send_request s request w
          ≡ record w2 { peers = peers; frames = w2.frames ++ acks sd.struct sd.spare msg.id } =
        ground (arith, init, d.status, on, sent, acked, lucky.send_msg_reply, writable) in
      Meets-path done (record {
        holds = h1;
        replies =
            ground (
              arith,
              same,
              append_assoc w.replies ((0 ∷ []) ∷ []) ((decimal msg.id ++ 0 ∷ []) ∷ []),
            );
        frames = ground (
          arith,
          same,
          d.ip,
          d.port,
          sd.acked msg.id,
          append_assoc w.frames (message_frame e msg ∷ []) (acks sd.struct sd.spare msg.id),
        );
      })
