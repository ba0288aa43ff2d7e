-- ===== src/Contract.antt =====
-- What the server promises its clients, without files, structs or sockets: users, where they listen,
-- and the messages that wait for them. The services of src/services.c are to answer as `handle` does.
pub mod Holds
pub mod Mails
pub mod Letters
pub mod Written
pub mod Accounts
pub mod Join
pub mod Post
pub mod Waits
pub mod Sends
pub mod Wire
pub mod Refines
pub mod Runs
pub mod Isolation
pub mod Startup
pub mod Delivery
pub mod Accepted
use ds_lab_assignment.Prelude.{
  ℕ, ◌≡◌, ◌⊎◌, inl, inr, refl, Bool-cases, ◌+◌, ◌==◌, if◌then◌else◌, insert_at, Bool, true, false,
  List, [], ◌∷◌, ◌++◌, Option, none, some, Bytes, codes, str_eq,
}
use ds_lab_assignment.Util.Types.{Message}
use ds_lab_assignment.Util.Decimal.{decimal}
use ds_lab_assignment.Services.World.{Frame}

pub record Address : Type 0 where
  pub ip : ℕ
  pub port : ℕ

-- A registered user. `address` is the last one known.
pub record User : Type 0 where
  pub last_msg_id : ℕ
  pub connected : Bool
  pub address : Address
  pub pending : List Message

abbrev pub Office : Type 0
Office = Bytes → Option User

abbrev pub with_user : Bytes → Option User → Office → Office
with_user name user office = λ v. if str_eq v name then user else office v

pub data Call : Type 0 where
  register : Bytes → Call
  unregister : Bytes → Call
  connect : Bytes → ℕ → Call
  disconnect : Bytes → Call
  send : Bytes → Bytes → Bytes → Call

-- What a request leaves, what the client is answered, and what listening threads are sent.
pub record Outcome : Type 0 where
  pub office : Office
  pub replies : List Bytes
  pub frames : List Frame

-- Where the client calls from, the address that a new user has by chance, and how many of the messages
-- that wait for a user come before a new one, by their names: no order of the messages is promised.
pub record Meeting : Type 0 where
  pub ip : ℕ
  pub chance : Address
  pub place : Bytes → List Bytes → ℕ

abbrev pub message_to : Address → Message → Frame
message_to a m = record {
  ip = a.ip;
  port = a.port;
  strings = codes "SEND_MESSAGE" ∷ m.sender ∷ decimal m.id ∷ m.content ∷ [];
}

-- The sender learns that a message was delivered, if still registered and connected.
abbrev pub ack_to : Option User → ℕ → List Frame
ack_to none id = []
ack_to (some u) id =
    if u.connected
    then (record {
      ip = u.address.ip;
      port = u.address.port;
      strings = codes "SEND_MESS_ACK" ∷ decimal id ∷ [];
    })
      ∷ []
    else []

abbrev pub deliveries : Office → Address → List Message → List Frame
deliveries office a [] = []
deliveries office a (m ∷ ms) =
    message_to a m ∷ (ack_to (office m.sender) m.id ++ deliveries office a ms)

-- Message IDs go up by one and start again at 0.
abbrev pub following : ℕ → ℕ
following last = if last + 1 == 4294967295 then 0 else last + 1

abbrev pub has_id : ℕ → List Message → Bool
has_id id [] = false
has_id id (m ∷ ms) = if m.id == id then true else has_id id ms

abbrev pub answer : ℕ → Office → Outcome
answer code office = record { office = office; replies = (code ∷ []) ∷ []; frames = [] }

abbrev pub accepted : ℕ → List Bytes
accepted id = (0 ∷ []) ∷ (decimal id ++ 0 ∷ []) ∷ []

-- the recipient with the next message ID
abbrev pub counted : User → User
counted user = record user { last_msg_id = following user.last_msg_id }

abbrev pub letter : Bytes → Bytes → User → Message
letter from content user = record {
  sender = from;
  id = following user.last_msg_id;
  content = content;
}

-- The message goes out at once.
abbrev pub post_sent : Bytes → Bytes → Bytes → User → Office → Outcome
post_sent from to content user office =
    let office' = with_user to (some (counted user)) office in
    record {
      office = office';
      replies = accepted (following user.last_msg_id);
      frames =
          message_to user.address (letter from content user)
          ∷ ack_to (office' from) (following user.last_msg_id);
    }

-- the names of messages
abbrev pub ids : List Message → List Bytes
ids [] = []
ids (m ∷ ms) = decimal m.id ∷ ids ms

-- the messages that wait, and one more
abbrev pub filed : Meeting → Message → List Message → List Message
filed m new waiting = insert_at (m.place (decimal new.id) (ids waiting)) new waiting

-- The message waits.
abbrev pub post_waits : Meeting → Bytes → Bytes → Bytes → User → Office → Outcome
post_waits m from to content user office = record {
  office =
      with_user to
        (some (record (counted user) { pending = filed m (letter from content user) user.pending }))
        office;
  replies = accepted (following user.last_msg_id);
  frames = [];
}

-- A message to a registered user: it goes out at once, or waits. It is lost if one with its ID
-- waits already.
abbrev pub post : Meeting → Bytes → Bytes → Bytes → User → Office → Outcome
post m from to content user office =
    if user.connected
    then post_sent from to content user office
    else if has_id (following user.last_msg_id) user.pending
    then answer 2 (with_user to (some (counted user)) office)
    else post_waits m from to content user office

-- a connected user: as before, or with the new address
abbrev pub with_address : Address → User → User
with_address a user = record user { connected = true; address = a }

abbrev pub held : Address → User → User
held a user = if user.connected then user else with_address a user

-- The user is connected as given, and is sent the messages that wait.
abbrev pub join : Bytes → ℕ → User → Office → Outcome
join name code user office = record {
  office = with_user name (some (record user { pending = [] })) office;
  replies = (code ∷ []) ∷ [];
  frames = deliveries (with_user name (some user) office) user.address user.pending;
}

abbrev pub new_member : Meeting → User
new_member m = record { last_msg_id = 0; connected = false; address = m.chance; pending = [] }

abbrev pub registered : Meeting → Bytes → Office → Option User → Outcome
registered m name office none = answer 0 (with_user name (some (new_member m)) office)
registered m name office (some user) = answer 1 office

abbrev pub unregistered : Bytes → Office → Option User → Outcome
unregistered name office none = answer 1 office
unregistered name office (some user) = answer 0 (with_user name none office)

abbrev pub joined : Bytes → Address → Office → Option User → Outcome
joined name a office none = answer 1 office
joined name a office (some user) = join name (if user.connected then 2 else 0) (held a user) office

abbrev pub away : User → User
away user = record user { connected = false; address = record { ip = 0; port = 0 } }

abbrev pub left : Bytes → Office → Option User → Outcome
left name office none = answer 1 office
left name office (some user) =
    if user.connected then answer 0 (with_user name (some (away user)) office) else answer 2 office

abbrev pub posted : Meeting → Bytes → Bytes → Bytes → Office → Option User → Option User → Outcome
posted m from to content office none user = answer 1 office
posted m from to content office (some sender) none = answer 1 office
posted m from to content office (some sender) (some user) = post m from to content user office

unfoldable pub handle : Meeting → Call → Office → Outcome
handle m (register name) office = registered m name office (office name)
handle m (unregister name) office = unregistered name office (office name)
handle m (connect name port) office =
    joined name (record { ip = m.ip; port = port }) office (office name)
handle m (disconnect name) office = left name office (office name)
handle m (send from to content) office = posted m from to content office (office from) (office to)

-- what becomes of a message to a registered user
pub post-cases :
    (m : Meeting) (from to content : Bytes) (user : User) (office : Office)
    → ((user.connected ≡ true)
        × (post m from to content user office ≡ post_sent from to content user office))
      ⊎ ((user.connected ≡ false)
          × (has_id (following user.last_msg_id) user.pending ≡ true)
          × (post m from to content user office
              ≡ answer 2 (with_user to (some (counted user)) office)))
      ⊎ ((user.connected ≡ false)
          × (has_id (following user.last_msg_id) user.pending ≡ false)
          × (post m from to content user office ≡ post_waits m from to content user office))
post-cases m from to content user office = elim (Bool-cases user.connected) [
  | inl on ↦ inl (on, simp on refl)
  | inr off ↦ elim (Bool-cases (has_id (following user.last_msg_id) user.pending)) [
    | inl taken ↦ inr (inl (off, taken, simp (off, taken) refl))
    | inr free ↦ inr (inr (off, free, simp (off, free) refl))
  ]
]
