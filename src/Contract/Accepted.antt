-- ===== src/Contract/Accepted.antt =====
-- A message that SEND of src/services.c accepts, up to the CONNECT of its recipient.
use ds_lab_assignment.Prelude.{
  ℕ, ◌≡◌, refl, sym, ap, ◌∙◌, false, All, List, [], ◌∷◌, ◌++◌, some, Bytes, Has, Has-append_right,
  insert_at-Has, str_eq_refl,
}
use mathlib.Core.Path.{subst}
use ds_lab_assignment.Util.Types.{Message}
use ds_lab_assignment.Dbms.Fs.{Fs, Node}
use ds_lab_assignment.Services.World.{World, Frame}
use ds_lab_assignment.Server.Dispatch.{service_thread}
use ds_lab_assignment.Contract.{
  User, Office, counted, Call, Outcome, Meeting, letter, has_id, following, accepted, message_to,
  handle, filed, posted, post_waits,
}
use ds_lab_assignment.Contract.Holds.{Holds}
use ds_lab_assignment.Contract.Runs.{
  Visit, taken_of, behind, AllReady, AllMeet, service_thread_meets,
}
use ds_lab_assignment.Contract.Delivery.{Waits, takes, handle-Waits, connect_delivers}

-- The last of these worlds has sent the frame.
pub record SentLast (frame : Frame) (ws : List World) : Type 0 where
  pub between : List World
  pub last : World
  pub split : ws ≡ between ++ last ∷ []
  pub frames : Has frame last.frames

SentLast-cons :
    {frame : Frame} {ws : List World} (w : World) → SentLast frame ws → SentLast frame (w ∷ ws)
SentLast-cons w s = record {
  between = w ∷ s.between;
  last = s.last;
  split = ap (λ ws. w ∷ ws) s.split;
  frames = s.frames;
}

sent_at_last :
    (to : Bytes) (m : Message) (port : ℕ) (vs : List Visit) (v : Visit) (root : Node)
    (office : Office) (ws : List World)
    → v.call ≡ Call.connect to port
    → All (λ (u : Visit). takes to u.call ≡ false) vs
    → Waits office to m
    → AllMeet root office (vs ++ v ∷ []) ws
    → SentLast (message_to (record { ip = v.meeting.ip; port = port }) m) ws
sent_at_last to m port [] v root office [] is spares waits all = absurd all
sent_at_last to m port [] v root office (w ∷ x ∷ ws) is spares waits all = absurd all.1
sent_at_last to m port [] v root office (w ∷ []) is spares waits all = record {
  between = [];
  last = w;
  split = refl;
  frames =
      subst (λ fr. Has (message_to (record { ip = v.meeting.ip; port = port }) m) fr)
        (sym (all.0.frames))
        (Has-append_right v.taken.world.frames (
          subst
            (λ c.
              Has (message_to (record { ip = v.meeting.ip; port = port }) m)
                (handle v.meeting c office).frames)
            (sym is) (connect_delivers v.meeting port office to m waits)));
}
sent_at_last to m port (u ∷ vs) v fs office [] is spares waits all = absurd all
sent_at_last to m port (u ∷ vs) v fs office (w ∷ ws) is spares waits all = SentLast-cons w (
    sent_at_last to m port vs v w.fs.root (behind u office) ws is spares.1
      (handle-Waits u.meeting u.call office to m spares.0 waits) all.1)

-- SEND to a registered user who is not connected leaves the message waiting.
send-Waits :
    (meeting : Meeting) (from to content : Bytes) (sender user : User) (office : Office)
    → office from ≡ some sender
    → office to ≡ some user
    → user.connected ≡ false
    → has_id (following user.last_msg_id) user.pending ≡ false
    → ((handle meeting (Call.send from to content) office).replies
        ≡ accepted (following user.last_msg_id))
      × Waits
          (handle meeting (Call.send from to content) office).office
          to
          (letter from content user)
unfolding handle
send-Waits meeting from to content sender user office here there off free =
    let same : posted meeting from to content office (office from) (office to)
        ≡ post_waits meeting from to content user office =
      simp (here, there, off, free) refl in
    (
      ap (λ (o : Outcome). o.replies) same,
      subst (λ (o : Outcome). Waits o.office to (letter from content user)) (sym same)
          (record {
            user = record (counted user) {
              pending = filed meeting (letter from content user) user.pending;
            };
            known = rw (str_eq_refl to) refl;
            away = off;
            waiting = insert_at-Has _ (letter from content user) user.pending;
          }),
    )

-- On a database that holds the users of `office`, a registered client sends a message to a user who is
-- registered and not connected, while no message waits for the user under the next ID. A service
-- thread answers 0 and that ID. Then it serves any requests but a CONNECT or UNREGISTER of that user, and
-- after them a CONNECT of that user, with each connection `Ready` for its request at the users that the
-- requests before leave: every round ends, and the last one sends the message to the address of that
-- CONNECT.
pub accepted_delivered :
    (fuel : ℕ) (fs : Fs) (office : Office) (from to content : Bytes) (sender user : User)
    (sends : Visit) (vs : List Visit) (connects : Visit) (port : ℕ)
    → Holds fs office
    → office from ≡ some sender
    → office to ≡ some user
    → user.connected ≡ false
    → has_id (following user.last_msg_id) user.pending ≡ false
    → sends.call ≡ Call.send from to content
    → All (λ (u : Visit). takes to u.call ≡ false) vs
    → connects.call ≡ Call.connect to port
    → AllReady fuel (sends ∷ vs ++ connects ∷ []) office
    → (first : World) × (ws : List World) × (service_thread fuel
          (taken_of (sends ∷ vs ++ connects ∷ []))
          fs.root
        ≡ some (first ∷ ws))
      × (first.replies ≡ sends.taken.world.replies ++ accepted (following user.last_msg_id))
      × SentLast
          (message_to (record { ip = connects.meeting.ip; port = port }) (letter from content user))
          ws
accepted_delivered fuel fs office from to content sender user sends vs connects port h here there
      off free is_send spares is_connect ready =
    let (ws, served, all) =
      service_thread_meets fuel (sends ∷ vs ++ connects ∷ []) fs office h ready in
    let (replies, waits) =
      subst
        (λ c.
          ((handle sends.meeting c office).replies ≡ accepted (following user.last_msg_id))
          × Waits (handle sends.meeting c office).office to (letter from content user))
        (sym is_send)
        (send-Waits sends.meeting from to content sender user office here there off free) in
    go ws served all replies waits
  where
    go :
        (ws : List World)
        → service_thread fuel (taken_of (sends ∷ vs ++ connects ∷ [])) fs.root ≡ some ws
        → AllMeet fs.root office (sends ∷ vs ++ connects ∷ []) ws
        → (handle sends.meeting sends.call office).replies ≡ accepted (following user.last_msg_id)
        → Waits (behind sends office) to (letter from content user)
        → (first : World) × (rest : List World) × (service_thread fuel
              (taken_of (sends ∷ vs ++ connects ∷ []))
              fs.root
            ≡ some (first ∷ rest))
          × (first.replies ≡ sends.taken.world.replies ++ accepted (following user.last_msg_id))
          × SentLast
              (message_to
                (record { ip = connects.meeting.ip; port = port })
                (letter from content user))
              rest
    go [] served all replies waits = absurd all
    go (w ∷ ws) served (met, all) replies waits = (
      w,
      ws,
      served,
      met.replies ∙ ap (λ rs. sends.taken.world.replies ++ rs) replies,
      sent_at_last to (letter from content user) port vs connects w.fs.root (behind sends office) ws
          is_connect spares waits all,
    )
