-- ===== src/Contract/Delivery.antt =====
-- What becomes of a message that waits: no request but a CONNECT or UNREGISTER of its recipient takes
-- it away, and the CONNECT delivers it.
use ds_lab_assignment.Prelude.{
  ℕ, ◌≡◌, refl, sym, ap, Bool, false, List, [], ◌∷◌, ◌++◌, Option, none, some, Bool-cases, Bytes,
  Has, Has-insert_at, Has-append_right, str_eq, str_eq_refl, str-cases, inl, inr,
}
use mathlib.Core.Path.{subst}
use ds_lab_assignment.Util.Types.{Message}
use ds_lab_assignment.Contract.{
  Address, User, Office, with_user, Call, Meeting, counted, letter, message_to, ack_to,
  with_address, deliveries, post, post-cases, posted, joined, registered, unregistered, left,
  handle,
}

-- A user who is not connected, and for whom the message waits.
pub record Waits (office : Office) (to : Bytes) (m : Message) : Type 0 where
  pub user : User
  pub known : office to ≡ some user
  pub away : user.connected ≡ false
  pub waiting : Has m user.pending

-- The request takes messages away from the user.
abbrev pub takes : Bytes → Call → Bool
takes to (Call.connect name port) = str_eq to name
takes to (Call.unregister name) = str_eq to name
takes to _ = false

-- the user's entry is another's or keeps the message
Waits-with_user :
    (office : Office) (to name : Bytes) (m : Message) (user user' : User)
    → office name ≡ some user
    → (user.connected ≡ false
        → Has m user.pending
        → (user'.connected ≡ false) × Has m user'.pending)
    → Waits office to m
    → Waits (with_user name (some user') office) to m
Waits-with_user office to name m user user' here keeps w = elim (str-cases to name) [
  | inl e ↦
      let same : w.user ≡ user = let at : office to ≡ office name = ap office e in cc in
      let (away, waiting) =
        keeps (subst (λ (u : User). u.connected ≡ false) same w.away)
          (subst (λ (u : User). Has m u.pending) same w.waiting) in
      record { user = user'; known = rw (e, str_eq_refl name) refl; away = away; waiting = waiting }
  | inr ne ↦ record { user = w.user; known = rw ne w.known; away = w.away; waiting = w.waiting }
]

Waits-apart :
    (office : Office) (to name : Bytes) (m : Message) (user : Option User)
    → str_eq to name ≡ false
    → Waits office to m
    → Waits (with_user name user office) to m
Waits-apart office to name m user ne w = record {
  user = w.user;
  known = rw ne w.known;
  away = w.away;
  waiting = w.waiting;
}

registered-Waits :
    (meeting : Meeting) (office : Office) (to name : Bytes) (m : Message) (user : Option User)
    → office name ≡ user
    → Waits office to m
    → Waits (registered meeting name office user).office to m
registered-Waits meeting office to name m none here w = elim (str-cases to name) [
  | inl e ↦ let at : office to ≡ office name = ap office e in let known = w.known in absurd (cc)
  | inr ne ↦ Waits-apart office to name m _ ne w
]
registered-Waits meeting office to name m (some user) here w = w

unregistered-Waits :
    (office : Office) (to name : Bytes) (m : Message) (user : Option User)
    → str_eq to name ≡ false
    → Waits office to m
    → Waits (unregistered name office user).office to m
unregistered-Waits office to name m none ne w = w
unregistered-Waits office to name m (some user) ne w = Waits-apart office to name m none ne w

joined-Waits :
    (office : Office) (to name : Bytes) (m : Message) (a : Address) (user : Option User)
    → str_eq to name ≡ false
    → Waits office to m
    → Waits (joined name a office user).office to m
joined-Waits office to name m a none ne w = w
joined-Waits office to name m a (some user) ne w = Waits-apart office to name m _ ne w

left-Waits :
    (office : Office) (to name : Bytes) (m : Message) (user : Option User)
    → office name ≡ user
    → Waits office to m
    → Waits (left name office user).office to m
left-Waits office to name m none here w = w
left-Waits office to name m (some user) here w = elim (Bool-cases user.connected) [
  | inl on ↦ rw on (Waits-with_user office to name m user _ here (λ off waiting. (refl, waiting)) w)
  | inr off ↦ rw off w
]

post-Waits :
    (meeting : Meeting) (office : Office) (to from name content : Bytes) (m : Message) (user : User)
    → office name ≡ some user
    → Waits office to m
    → Waits (post meeting from name content user office).office to m
post-Waits meeting office to from name content m user here w =
    let same =
      Waits-with_user office to name m user (counted user) here (λ off waiting. (off, waiting)) w in
    let longer =
      Waits-with_user office to name m user _ here
        (λ off waiting. (off, Has-insert_at _ (letter from content user) waiting)) w in
    elim (post-cases meeting from name content user office) [
      | inl (on, e) ↦ rw e same
      | inr (inl (off, taken, e)) ↦ rw e same
      | inr (inr (off, free, e)) ↦ rw e longer
    ]

posted-Waits :
    (meeting : Meeting) (office : Office) (to from name content : Bytes) (m : Message)
    (sender user : Option User)
    → office name ≡ user
    → Waits office to m
    → Waits (posted meeting from name content office sender user).office to m
posted-Waits meeting office to from name content m none user here w = w
posted-Waits meeting office to from name content m (some sender) none here w = w
posted-Waits meeting office to from name content m (some sender) (some user) here w =
    post-Waits meeting office to from name content m user here w

-- A message waits on through any request that does not take it.
pub handle-Waits :
    (meeting : Meeting) (call : Call) (office : Office) (to : Bytes) (m : Message)
    → takes to call ≡ false
    → Waits office to m
    → Waits (handle meeting call office).office to m
unfolding handle
handle-Waits meeting (Call.register name) office to m t w =
    registered-Waits meeting office to name m (office name) refl w
handle-Waits meeting (Call.unregister name) office to m t w =
    unregistered-Waits office to name m (office name) t w
handle-Waits meeting (Call.connect name port) office to m t w =
    joined-Waits office to name m _ (office name) t w
handle-Waits meeting (Call.disconnect name) office to m t w =
    left-Waits office to name m (office name) refl w
handle-Waits meeting (Call.send from name content) office to m t w =
    posted-Waits meeting office to from name content m (office from) (office name) refl w

deliveries-Has :
    (office : Office) (a : Address) (m : Message) (ms : List Message)
    → Has m ms
    → Has (message_to a m) (deliveries office a ms)
deliveries-Has office a m ms (before, after, e) =
    subst (λ ns. Has (message_to a m) (deliveries office a ns)) (sym e) (go before)
  where
    go : (before : List Message) → Has (message_to a m) (deliveries office a (before ++ m ∷ after))
    go [] = ([], _, refl)
    go (n ∷ before) =
        let (b, c, e') =
          Has-append_right (message_to a n ∷ ack_to (office n.sender) n.id) (go before) in
        (b, c, e')

-- CONNECT delivers it, at the address from which the user connects.
pub connect_delivers :
    (meeting : Meeting) (port : ℕ) (office : Office) (to : Bytes) (m : Message)
    → Waits office to m
    → Has
        (message_to (record { ip = meeting.ip; port = port }) m)
        (handle meeting (Call.connect to port) office).frames
unfolding handle
connect_delivers meeting port office to m w =
    let a : Address = record { ip = meeting.ip; port = port } in
    let delivered =
      deliveries-Has (with_user to (some (with_address a w.user)) office) a m w.user.pending
        w.waiting in
    rw (w.known, w.away) delivered
