-- ===== src/Tests/Sockets.antt =====
-- Strings on a socket, at concrete sequences of calls.
use ds_lab_assignment.Prelude.{
  ◌≡◌, ◌<◌, ◌⊎◌, refl, true, false, [], ◌∷◌, ◌++◌, some, length, pos, codes, arith,
}
use ds_lab_assignment.Util.Codes.{gen_success, gen_err_any, max_msg_size}
use ds_lab_assignment.Util.ReadLine.{byte, eintr, fault, read_line, close, again}
use ds_lab_assignment.Util.ReadLine.Reference.{reference, read_line-reference}
use ds_lab_assignment.Util.Transfer.{wrote, got, write_bytes, read_bytes}
use ds_lab_assignment.Util.Transfer.Laws.{Progress, write_bytes_lem, part, last, read_bytes_lem}
use ds_lab_assignment.NetUtil.{send_string, recv_string}
use ds_lab_assignment.NetUtil.RoundTrip.{
  IsLine, done, interrupted, next, send_string_lem, recv_string-send_string, recv_string_closed,
  recv_string_bounds,
}

-- "hi" in two reads, the second one interrupted, and what follows
read_line-reference_example :
    read_line (byte 104 ∷ eintr ∷ byte 105 ∷ byte 0 ∷ fault ∷ []) 2 []
    ≡ reference 1 [] (byte 104 ∷ eintr ∷ byte 105 ∷ byte 0 ∷ fault ∷ [])
read_line-reference_example =
    read_line-reference 1 [] (byte 104 ∷ eintr ∷ byte 105 ∷ byte 0 ∷ fault ∷ [])

write_bytes_lem_example :
    write_bytes (codes "abc") (length (codes "abc")) (wrote 1 ∷ wrote 1 ∷ wrote 1 ∷ [])
    ≡ some (pos (length (codes "abc")), codes "abc")
write_bytes_lem_example =
    write_bytes_lem (codes "abc") (wrote 1 ∷ wrote 1 ∷ wrote 1 ∷ []) (omega arith) (omega arith)
      (omega arith, omega arith, (omega arith, omega arith, (omega arith, omega arith, tt))) tt

read_bytes_lem_example :
    read_bytes 3 (got (codes "a") ∷ got (codes "bc") ∷ [])
    ≡ some (pos (length (codes "abc")), codes "abc")
read_bytes_lem_example =
    read_bytes_lem 3 (omega arith) (part (omega arith) (omega arith) (last refl))

two_writes : Progress 2 (wrote 1 ∷ wrote 1 ∷ [])
two_writes = (omega arith, omega arith, (omega arith, omega arith, tt))

a_sent :
    send_string (codes "a") (wrote 1 ∷ wrote 1 ∷ [])
    ≡ some (record { result = gen_success; taken = codes "a" ++ 0 ∷ []; closed = false })
a_sent = send_string_lem (codes "a") (wrote 1 ∷ wrote 1 ∷ []) (omega arith) two_writes tt

recv_string-send_string_example :
    recv_string (byte 97 ∷ eintr ∷ byte 0 ∷ fault ∷ []) (codes "old")
    ≡ record { result = gen_success; string = codes "a"; rest = fault ∷ []; closed = false }
recv_string-send_string_example =
    recv_string-send_string (codes "a") (codes "old") (wrote 1 ∷ wrote 1 ∷ []) (refl, tt)
      (omega arith) (omega arith) two_writes tt a_sent (next (interrupted (next done)))

recv_string_closed_example :
    recv_string (eintr ∷ []) (codes "old")
    ≡ record { result = gen_success; string = codes "old"; rest = []; closed = false }
recv_string_closed_example = recv_string_closed (codes "old") (again close)

recv_string_bounds_example :
    let r = recv_string (byte 97 ∷ fault ∷ []) (codes "old") in
    ((r.result ≡ gen_err_any) × (r.closed ≡ true))
    ⊎ ((r.result ≡ gen_success) × (r.closed ≡ false) × (r.string ≡ codes "old"))
    ⊎ ((r.result ≡ gen_success)
        × (r.closed ≡ false)
        × (length r.string < max_msg_size)
        × IsLine r.string)
recv_string_bounds_example = recv_string_bounds (codes "old") (byte 97 ∷ fault ∷ [])
