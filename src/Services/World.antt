-- ===== src/Services/World.antt =====
-- What the functions of src/services.c work on: the database, the client's socket, and the listening
-- threads of other clients.
use ds_lab_assignment.Prelude.{
  ℕ, ◌-◌, ◌==◌, leb, length, take, if◌then◌else◌, Bool, List, [], ◌∷◌, ◌++◌, Option, ℤ, Bytes,
}
use ds_lab_assignment.Util.Codes.{gen_success, gen_err_any}
use ds_lab_assignment.Util.Types.{Entry, EntryType, Request, Mode}
use ds_lab_assignment.Util.ReadLine.{ReadEvent}
use ds_lab_assignment.NetUtil.{recv_string}
use ds_lab_assignment.Dbms.Fs.{Fs}
use ds_lab_assignment.Dbms.Ops.{db_io_op_usr_ent}

-- How the listening thread behind one `connect` behaves: it refuses, or takes so many strings before
-- a `write` to it fails.
pub data Peer : Type 0 where
  refuses : Peer
  accepts : ℕ → Peer

-- The strings that a listening thread was sent over one connection.
pub record Frame : Type 0 where
  pub ip : ℕ
  pub port : ℕ
  pub strings : List Bytes

-- The client's socket takes all that is written to it if it is `writable`, and otherwise `room` bytes
-- before `write` fails. `peers` is what the coming calls of `connect` meet; behind its end they are
-- refused, or go to threads that take so many strings each, without end.
pub record World : Type 0 where
  pub fs : Fs
  pub input : List ReadEvent
  pub writable : Bool
  pub room : ℕ
  pub peer_ip : Option ℕ
  pub replies : List Bytes
  pub peers : List Peer
  pub beyond : Option ℕ
  pub frames : List Frame

-- What a handler's uninitialised variables hold.
pub record Stack : Type 0 where
  pub entry : Entry
  pub request : Request
  pub reply : ℕ
  pub send_msg_reply : ℕ

-- The result of `recv_string` on the client's socket, the string, and the world after it.
pub record Input : Type 0 where
  pub result : ℤ
  pub string : Bytes
  pub world : World

unfoldable pub receive : Bytes → World → Input
unfolding recv_string
receive old w =
    let r = recv_string w.input old in
    record { result = r.result; string = r.string; world = record w { input = r.rest } }

-- A write of `send_server_reply` or `send_string` to the client's socket: all of it, or what the socket
-- still takes and then an error. What one call wrote is one element of `replies`.
unfoldable pub reply_bytes : Bytes → World → ℤ × World
reply_bytes bytes w =
    if w.writable
    then (gen_success, record w { replies = w.replies ++ bytes ∷ [] })
    else if leb (length bytes) w.room
    then (gen_success, record w { replies = w.replies ++ bytes ∷ []; room = w.room - length bytes })
    else if w.room == 0
    then (gen_err_any, w)
    else (gen_err_any, record w { replies = w.replies ++ take w.room bytes ∷ []; room = 0 })

-- `db_io_op_usr_ent` in the world: the result, the struct, and the world.
pub record Io : Type 0 where
  pub result : ℤ
  pub entry : Entry
  pub world : World

unfoldable pub io_op : Entry → Mode → World → Io
io_op e mode w =
    let r = db_io_op_usr_ent e mode w.fs in
    record { result = r.result; entry = r.entry; world = record w { fs = r.fs } }

-- An entry set up to name a user's data.
abbrev pub user_entry : Entry → Bytes → Entry
user_entry e username = record e { username = username; type = EntryType.ud }
