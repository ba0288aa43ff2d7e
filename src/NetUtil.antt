-- ===== src/NetUtil.antt =====
-- src/netUtil.c: whole strings and replies on a socket.
pub mod RoundTrip
use ds_lab_assignment.Prelude.{
  ℕ, ◌+◌, if◌then◌else◌, Bool, true, false, List, [], ◌∷◌, ◌++◌, Option, none, some, length, ℤ,
  is_neg, Bytes,
}
use ds_lab_assignment.Util.Codes.{gen_success, gen_err_any, max_msg_size}
use ds_lab_assignment.Util.ReadLine.{ReadEvent, Line, read_line}
use ds_lab_assignment.Util.Transfer.{WriteResult, write_bytes}

-- What a sending function returns, the bytes that the socket has taken, and whether the function
-- has closed the socket.
pub record Sent : Type 0 where
  pub result : ℤ
  pub taken : Bytes
  pub closed : Bool

-- CHECK_SOCK_ERROR round the result of `write_bytes`, and the return behind it.
check_sock : ℤ × Bytes → Sent
check_sock (ret_val, taken) =
    if is_neg ret_val
    then record { result = gen_err_any; taken = taken; closed = true }
    else record { result = gen_success; taken = taken; closed = false }

-- `send_server_reply`: the one byte of the reply. `none`: the call has not returned.
pub send_server_reply : ℕ → List WriteResult → Option Sent
unfolding check_sock
send_server_reply code results = elim (write_bytes (code ∷ []) 1 results) [
  | none ↦ none
  | some r ↦ some (check_sock r)
]

-- `send_string`: the string with its terminating zero.
pub send_string : Bytes → List WriteResult → Option Sent
unfolding check_sock
send_string string results = elim (write_bytes (string ++ 0 ∷ []) (length string + 1) results) [
  | none ↦ none
  | some r ↦ some (check_sock r)
]

-- What `recv_string` leaves: its result, the array, what is left to read, and whether it has closed
-- the socket.
pub record Received : Type 0 where
  pub result : ℤ
  pub string : Bytes
  pub rest : List ReadEvent
  pub closed : Bool

-- CHECK_SOCK_ERROR round the result of `read_line`.
check_line : Line → Received
check_line l =
    if is_neg l.result
    then record { result = gen_err_any; string = l.buffer; rest = l.rest; closed = true }
    else record { result = gen_success; string = l.buffer; rest = l.rest; closed = false }

-- `recv_string`, into an array that held the string `old`.
unfoldable pub recv_string : List ReadEvent → Bytes → Received
unfolding check_line
recv_string events old = check_line (read_line events max_msg_size old)
