-- ===== src/Services/Client/Laws.antt =====
-- What a listening thread that takes all strings is sent (`clt_send_message` and `clt_send_mess_ack`
-- of src/services.c).
use ds_lab_assignment.Prelude.{ℕ, suc, ◌≡◌, List, [], ◌∷◌, ◌++◌, pos, arith}
use ds_lab_assignment.Util.Codes.{gen_err_any, send_message_op, send_mess_ack_op}
use ds_lab_assignment.Util.Types.{Entry, EntryType, Message}
use ds_lab_assignment.Util.Decimal.{decimal}
use ds_lab_assignment.Dbms.Fs.{image, file, enoent, ok, err, walk}
use ds_lab_assignment.Dbms.Paths.Laws.{NoSlash}
use ds_lab_assignment.Dbms.Remove.Laws.{NoFaults}
use ds_lab_assignment.Dbms.Account.{data_at}
use ds_lab_assignment.Dbms.Ops.Laws.{read_userdata, read_userdata_missing}
use ds_lab_assignment.Services.World.{Peer, refuses, accepts, Frame, World}
use ds_lab_assignment.Services.Client.{
  next_peer, aux_connect_clt_listen_thread, clt_send_message, clt_send_mess_ack,
}

-- the frame that carries a message, and the one that acknowledges it
abbrev pub message_frame : Entry → Message → Frame
message_frame e m = record {
  ip = e.user.ip;
  port = e.user.port;
  strings = send_message_op ∷ m.sender ∷ decimal m.id ∷ m.content ∷ [];
}

abbrev pub ack_frame : Entry → ℕ → Frame
ack_frame e id = record {
  ip = e.user.ip;
  port = e.user.port;
  strings = send_mess_ack_op ∷ decimal id ∷ [];
}

-- `given` names the user whose account holds `e`; it may differ from `e` in all else.
module _ (given e : Entry) (w : World) (sound : NoFaults w.fs.faulty)
    (name : NoSlash given.username) (is_ud : given.type ≡ EntryType.ud)
    (stored : walk (data_at given.username) w.fs.root ≡ ok (file (image e))) where
  connect_lem : aux_connect_clt_listen_thread given w ≡ record {
    result = (next_peer w.beyond w.peers).0;
    entry = e;
    world = record w { peers = (next_peer w.beyond w.peers).1 };
  }
  unfolding aux_connect_clt_listen_thread
  connect_lem = ground (arith, read_userdata w.fs sound given name is_ud e stored)

  -- No call of the file system fails, and the user's name, without a slash, has an entry in the
  -- database. If the listening thread takes four strings or more, `clt_send_message` returns 0,
  -- and the thread at the address in that entry gets the operation code, the sender, the ID and
  -- the content.
  pub clt_send_message_lem :
      (m : Message) (k : ℕ) (peers : List Peer)
      → w.peers ≡ accepts (suc (suc (suc (suc k)))) ∷ peers
      → clt_send_message m given w ≡ record {
        result = pos 0;
        entry = e;
        world = record w { peers = peers; frames = w.frames ++ message_frame e m ∷ [] };
      }
  unfolding clt_send_message next_peer
  clt_send_message_lem m k peers h = ground (arith, connect_lem, h)

  pub clt_send_message_refused :
      (m : Message) (peers : List Peer)
      → w.peers ≡ refuses ∷ peers
      → clt_send_message m given w
        ≡ record { result = gen_err_any; entry = e; world = record w { peers = peers } }
  unfolding clt_send_message next_peer
  clt_send_message_refused m peers h = ground (arith, connect_lem, h)

  pub clt_send_mess_ack_refused :
      (id : ℕ) (peers : List Peer)
      → w.peers ≡ refuses ∷ peers
      → clt_send_mess_ack id given w
        ≡ record { result = gen_err_any; entry = e; world = record w { peers = peers } }
  unfolding clt_send_mess_ack next_peer
  clt_send_mess_ack_refused id peers h = ground (arith, connect_lem, h)

  pub clt_send_mess_ack_lem :
      (id k : ℕ) (peers : List Peer)
      → w.peers ≡ accepts (suc (suc k)) ∷ peers
      → clt_send_mess_ack id given w ≡ record {
        result = pos 0;
        entry = e;
        world = record w { peers = peers; frames = w.frames ++ ack_frame e id ∷ [] };
      }
  unfolding clt_send_mess_ack next_peer
  clt_send_mess_ack_lem id k peers h = ground (arith, connect_lem, h)

-- a user without an entry gets no acknowledgement
pub clt_send_mess_ack_missing :
    (given : Entry) (w : World) (id : ℕ)
    → NoFaults w.fs.faulty
    → NoSlash given.username
    → given.type ≡ EntryType.ud
    → walk (data_at given.username) w.fs.root ≡ err enoent
    → clt_send_mess_ack id given w ≡ record { result = gen_err_any; entry = given; world = w }
unfolding clt_send_mess_ack aux_connect_clt_listen_thread
clt_send_mess_ack_missing given w id sound name is_ud gone =
    ground (arith, read_userdata_missing w.fs sound given name is_ud gone)
