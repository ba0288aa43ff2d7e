-- ===== src/Contract/Refines.antt =====
-- The rounds of `service_thread` (app/server.c) against the contract, from the bytes of a request to the
-- replies, the frames and the database.
use ds_lab_assignment.Prelude.{
  ℕ, zero, ◌<◌, ◌^◌, ◌≡◌, refl, sym, ap, ◌∙◌, List, [], ◌∷◌, ◌++◌, Option, some, true, false, Bytes,
  codes, str_eq, arith,
}
use mathlib.Core.Path.{subst}
use ds_lab_assignment.Util.Codes.{gen_success}
use ds_lab_assignment.Util.Types.{Request}
use ds_lab_assignment.Util.Decimal.{decimal}
use ds_lab_assignment.Util.ReadLine.{ReadEvent, Spelled}
use ds_lab_assignment.Dbms.Paths.Laws.{NoSlash}
use ds_lab_assignment.Services.World.{Peer, World, Stack, receive}
use ds_lab_assignment.Services.Users.{srv_connect, srv_connect_request}
use ds_lab_assignment.Services.Send.{srv_send, srv_send_request}
use ds_lab_assignment.Server.Dispatch.{dispatch, serve}
use ds_lab_assignment.Contract.{Office, Call, Outcome, Meeting, handle}
use ds_lab_assignment.Contract.Holds.{Holds}
use ds_lab_assignment.Contract.Accounts.{
  Lucky, Meets, register_meets, unregister_meets, disconnect_meets,
}
use ds_lab_assignment.Contract.Join.{join_meets, waiting_for, Ends, connect_meets}
use ds_lab_assignment.Contract.Post.{post_peers, send_request}
use ds_lab_assignment.Contract.Sends.{send_meets}
use ds_lab_assignment.Contract.Wire.{Says, says, words, receive_lem}

-- The names in a request can name a directory, and the port is one.
abbrev pub Proper : Call → Type 0
Proper (Call.register name) = NoSlash name
Proper (Call.unregister name) = NoSlash name
Proper (Call.connect name port) = NoSlash name × (port < 2 ^ 16)
Proper (Call.disconnect name) = NoSlash name
Proper (Call.send from to content) = NoSlash from × NoSlash to

-- the messages that a request sends out in a loop
abbrev pub backlog : Call → Office → ℕ
backlog (Call.connect name port) office = waiting_for (office name)
backlog _ office = zero

-- the listening threads that a request meets
abbrev pub met_by : Meeting → Call → Office → List Peer
met_by m (Call.connect name port) office =
    join_meets name (record { ip = m.ip; port = port }) office (office name)
met_by m (Call.send from to content) office = post_peers from to office (office from) (office to)
met_by _ _ office = []

-- What a request finds: a client that spells it and takes replies, a file system that lists a new
-- message where the contract says, and listening threads that answer exactly if their users are
-- connected.
pub record Ready (s : Stack) (fuel : ℕ) (m : Meeting) (call : Call) (office : Office) (w : World)
    : Type 0 where
  pub lucky : Lucky s m
  pub writable : w.writable ≡ true
  pub known : w.peer_ip ≡ some m.ip
  pub place : w.fs.place ≡ m.place
  pub proper : Proper call
  pub enough : backlog call office < fuel
  pub left : List ReadEvent
  pub spelled : Says w.input (words call) left
  pub peers : List Peer
  pub reached : w.peers ≡ met_by m call office ++ peers

-- The strings of a request are read one after the other.
pub record Heard (events : List ReadEvent) (string : Bytes) (strings : List Bytes)
    (rest : List ReadEvent) : Type 0 where
  pub between : List ReadEvent
  pub read :
      (old : Bytes) (w : World)
      → w.input ≡ events
      → receive old w
        ≡ record { result = gen_success; string = string; world = record w { input = between } }
  pub later : Says between strings rest

pub heard :
    {events rest : List ReadEvent} {string : Bytes} {strings : List Bytes}
    → Says events (string ∷ strings) rest
    → Heard events string strings rest
heard (says {between} {string} short spelled later) = record {
  between = between;
  read = λ old w e.
      receive_lem old string w between short
        (subst (λ es. Spelled es string false between) (sym e) spelled);
  later = later;
}

Ends-input :
    {w : World} {rest : List ReadEvent} {out : Outcome} {r r' : Option World}
    → Ends (record w { input = rest }) out r'
    → r ≡ r'
    → Ends w out r
Ends-input t e = record {
  after = t.after;
  result = e ∙ t.result;
  meets = record { holds = t.meets.holds; replies = t.meets.replies; frames = t.meets.frames };
}

Ends-some :
    {w after : World} {rest : List ReadEvent} {out : Outcome} {r : Option World}
    → Meets (record w { input = rest }) out after
    → r ≡ some after
    → Ends w out r
Ends-some {after} t e = record {
  after = after;
  result = e;
  meets = record { holds = t.holds; replies = t.replies; frames = t.frames };
}

module _ (s : Stack) (fuel : ℕ) where
  pub serve_op :
      {string : Bytes} {strings : List Bytes} {rest : List ReadEvent} (w : World)
      (op : Heard w.input string strings rest)
      → serve s fuel w
        ≡ dispatch s fuel (record s.request { op_code = string }) (record w { input = op.between })
  unfolding serve
  serve_op w op = ground (arith, op.read s.request.op_code w refl)

srv_connect_read :
    (s : Stack) (fuel : ℕ) (request : Request) (w : World) (name port : Bytes) (w1 w2 : World)
    → receive request.username w ≡ record { result = gen_success; string = name; world = w1 }
    → receive request.client_port w1 ≡ record { result = gen_success; string = port; world = w2 }
    → srv_connect s fuel request w ≡ srv_connect_request s fuel name port w2
unfolding srv_connect
srv_connect_read s fuel request w name port w1 w2 a b = ground (arith, a, b)

srv_send_read :
    (s : Stack) (request : Request) (w : World) (from to content : Bytes) (w1 w2 w3 : World)
    → receive request.message.sender w ≡ record { result = gen_success; string = from; world = w1 }
    → receive request.recipient w1 ≡ record { result = gen_success; string = to; world = w2 }
    → receive request.message.content w2
      ≡ record { result = gen_success; string = content; world = w3 }
    → srv_send s request w ≡ srv_send_request s (send_request request from to content) w3
unfolding srv_send
srv_send_read s request w from to content w1 w2 w3 a b c = ground (arith, a, b, c)

module _ (s : Stack) (fuel : ℕ) (m : Meeting) (office : Office) (w : World)
    (holds : Holds w.fs office) where
  -- A round of a service thread whose client spells a request, on a database that holds the users of
  -- `office` and whose calls do not fail: it ends, with fuel above the number of messages that a CONNECT
  -- finds waiting, and the database, the replies and the frames are those of `handle`. The client takes
  -- the replies and its address is known; names have no slash and the port is below 2^16; the listening
  -- threads that are met answer exactly if their users are connected; the contract puts a
  -- message that has to wait where the directory lists its file; and what the handler leaves
  -- uninitialised holds by chance what `Lucky` says.
  pub serve_meets :
      (call : Call) → Ready s fuel m call office w → Ends w (handle m call office) (serve s fuel w)
  unfolding dispatch str_eq
  serve_meets (Call.register name) r =
      let op = heard r.spelled in
      let user = heard op.later in
      let w1 = record w { input = op.between } in
      let request = record s.request { op_code = codes "REGISTER" } in
      Ends-some
        (register_meets s m r.lucky request w1 office holds r.writable name r.proper user.between
          (user.read request.username w1 refl))
        (serve_op s fuel w op)
  serve_meets (Call.unregister name) r =
      let op = heard r.spelled in
      let user = heard op.later in
      let w1 = record w { input = op.between } in
      let request = record s.request { op_code = codes "UNREGISTER" } in
      Ends-some
        (unregister_meets s m r.lucky request w1 office holds r.writable name r.proper user.between
          (user.read request.username w1 refl))
        (serve_op s fuel w op)
  serve_meets (Call.disconnect name) r =
      let op = heard r.spelled in
      let user = heard op.later in
      let w1 = record w { input = op.between } in
      let request = record s.request { op_code = codes "DISCONNECT" } in
      Ends-some
        (disconnect_meets s m r.lucky request w1 office holds r.writable name r.proper user.between
          (user.read request.username w1 refl))
        (serve_op s fuel w op)
  serve_meets (Call.connect name port) r =
      let op = heard r.spelled in
      let user = heard op.later in
      let to = heard user.later in
      let w1 = record w { input = op.between } in
      let w2 = record w { input = user.between } in
      let request = record s.request { op_code = codes "CONNECT" } in
      Ends-input
        (connect_meets s m r.lucky (record w { input = to.between }) office holds r.writable r.known
          name r.proper.0 port r.proper.1 fuel r.peers r.enough r.reached)
        (serve_op s fuel w op
          ∙ srv_connect_read s fuel request w1 name (decimal port) w2
              (record w { input = to.between }) (user.read request.username w1 refl)
              (to.read request.client_port w2 refl))
  serve_meets (Call.send from to content) r =
      let op = heard r.spelled in
      let user = heard op.later in
      let recipient = heard user.later in
      let text = heard recipient.later in
      let w1 = record w { input = op.between } in
      let w2 = record w { input = user.between } in
      let w3 = record w { input = recipient.between } in
      let w4 = record w { input = text.between } in
      let request = record s.request { op_code = codes "SEND" } in
      Ends-some
        (send_meets s m r.lucky w4 office holds r.writable request from to content r.proper.0
          r.proper.1 r.place r.peers r.reached)
        (serve_op s fuel w op
          ∙ ap some (
              srv_send_read s request w1 from to content w2 w3 w4
                (user.read request.message.sender w1 refl)
                (recipient.read request.recipient w2 refl)
                (text.read request.message.content w3 refl)))
