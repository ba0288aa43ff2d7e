-- ===== src/Services/Client.antt =====
-- The services that the client's listening thread serves: `aux_connect_clt_listen_thread`,
-- `clt_send_message` and `clt_send_mess_ack` of src/services.c.
pub mod Laws
use ds_lab_assignment.Prelude.{
  ℕ, zero, suc, if◌then◌else◌, Bool, true, false, List, [], ◌∷◌, ◌++◌, Option, none, some, ℤ, pos,
  is_neg, Bytes,
}
use ds_lab_assignment.Util.Codes.{gen_err_any, dbms_err_any, send_message_op, send_mess_ack_op}
use ds_lab_assignment.Util.Types.{Entry, Message, Mode}
use ds_lab_assignment.Util.Decimal.{decimal}
use ds_lab_assignment.Services.World.{Peer, refuses, accepts, Frame, World, Io, io_op}

-- The result of `aux_connect_clt_listen_thread`: an error, or a connection to a thread that takes so
-- many strings. It reads the entry anew.
pub record Connection : Type 0 where
  pub result : Option ℕ
  pub entry : Entry
  pub world : World

-- `connect`, with what it meets behind the end of the list
unfoldable pub next_peer : Option ℕ → List Peer → Option ℕ × List Peer
next_peer beyond [] = (beyond, [])
next_peer beyond (refuses ∷ peers) = (none, peers)
next_peer beyond (accepts n ∷ peers) = (some n, peers)

unfoldable pub aux_connect_clt_listen_thread : Entry → World → Connection
unfolding io_op next_peer
aux_connect_clt_listen_thread e w =
    let r = io_op e Mode.read w in
    let (n, peers) = next_peer w.beyond w.peers in
    if is_neg r.result
    then record { result = none; entry = r.entry; world = r.world }
    else record { result = n; entry = r.entry; world = record r.world { peers = peers } }

-- Strings sent one after another until one fails: whether all went, and those that did.
unfoldable pub send_strings : List Bytes → ℕ → Bool × List Bytes
send_strings [] n = (true, [])
send_strings (s ∷ strings) zero = (false, [])
send_strings (s ∷ strings) (suc n) = let (all, sent) = send_strings strings n in (all, s ∷ sent)

-- the world with what a connection carried
unfoldable pub carried : Entry → List Bytes → World → World
carried e strings w = record w {
  frames = w.frames ++ (record { ip = e.user.ip; port = e.user.port; strings = strings }) ∷ [];
}

-- both services, behind the connection
unfoldable pub send_over : List Bytes → Connection → Bool × Io
unfolding send_strings carried
send_over strings c = elim c.result [
  | none ↦ (false, record { result = gen_err_any; entry = c.entry; world = c.world })
  | some n ↦
      let (all, sent) = send_strings strings n in
      (all, record { result = pos 0; entry = c.entry; world = carried c.entry sent c.world })
]

-- `clt_send_message`, of the message in its request
unfoldable pub clt_send_message : Message → Entry → World → Io
unfolding send_over
clt_send_message m e w =
    let (all, io) =
      send_over (send_message_op ∷ m.sender ∷ decimal m.id ∷ m.content ∷ [])
        (aux_connect_clt_listen_thread e w) in
    if all then io else record io { result = gen_err_any }

-- `clt_send_mess_ack`, of the message ID in its request: it does not look whether the strings went.
unfoldable pub clt_send_mess_ack : ℕ → Entry → World → Io
unfolding send_over
clt_send_mess_ack id e w =
    (send_over (send_mess_ack_op ∷ decimal id ∷ []) (aux_connect_clt_listen_thread e w)).1
