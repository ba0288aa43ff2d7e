-- ===== src/NetUtil/RoundTrip.antt =====
-- `recv_string` reads what `send_string` wrote (src/netUtil.c).
use ds_lab_assignment.Prelude.{
  ℕ, sym, ◌+◌, ◌≤◌, ◌<◌, ◌≡◌, refl, inl, inr, ◌⊎◌, true, false, List, [], ◌∷◌, ◌++◌, some, length,
  All, length-append, take_of_le, Bytes, arith,
}
use mathlib.Core.Path.{subst}
use ds_lab_assignment.Util.Codes.{gen_success, gen_err_any, max_msg_size}
use ds_lab_assignment.Util.ReadLine.{
  ReadEvent, read_line, byte, eintr, ends_line, Spelled, stop, again, char,
}
use ds_lab_assignment.Util.ReadLine.Laws.{read_line_lem, read_line_closed, read_line-Bounded}
use ds_lab_assignment.Util.Transfer.{WriteResult}
use ds_lab_assignment.Util.Transfer.Laws.{Progress, Unfailing, write_bytes_lem}
use ds_lab_assignment.NetUtil.{Sent, send_string, recv_string}

-- a string that a line can carry: no newline and no zero
abbrev pub IsLine : Bytes → Type 0
IsLine = All (λ ch. ends_line ch ≡ false)

-- The bytes come out of the socket one by one, with interrupted calls before any of them; `rest` is
-- what comes after them.
pub data Arrives (rest : List ReadEvent) : Bytes → List ReadEvent → Type 0 where
  done : Arrives rest [] rest
  interrupted :
      {c : ℕ} {bytes : Bytes} {events : List ReadEvent}
      → Arrives rest (c ∷ bytes) events
      → Arrives rest (c ∷ bytes) (eintr ∷ events)
  next :
      {c : ℕ} {bytes : Bytes} {events : List ReadEvent}
      → Arrives rest bytes events
      → Arrives rest (c ∷ bytes) (byte c ∷ events)

Arrives-nil :
    {rest events : List ReadEvent} {bytes : Bytes}
    → Arrives rest bytes events
    → bytes ≡ []
    → events ≡ rest
Arrives-nil done e = refl
Arrives-nil (interrupted a) e = cc
Arrives-nil (next a) e = cc

Arrives-Spelled :
    {rest events : List ReadEvent} {bytes : Bytes}
    → Arrives rest bytes events
    → (s : Bytes) → bytes ≡ s ++ 0 ∷ []
    → IsLine s
    → Spelled events s false rest
Arrives-Spelled done [] e l = cc
Arrives-Spelled done (d ∷ s) e l = cc
Arrives-Spelled (interrupted a) s e l = again (Arrives-Spelled a s e l)
Arrives-Spelled (next {c} {bytes} {events} a) [] e l =
    let zero_read : c ≡ 0 = cc in
    let nothing_left : bytes ≡ [] = cc in
    subst (λ r. Spelled (byte c ∷ events) [] false r) (Arrives-nil a nothing_left)
      (stop (rw zero_read))
Arrives-Spelled (next {c} {bytes} {events} a) (d ∷ s) e l =
    let first : d ≡ c = cc in
    let others : bytes ≡ s ++ 0 ∷ [] = cc in
    rw first (char (rw first at l.0) (Arrives-Spelled a s others l.1))

-- If the peer's `write` calls do not fail and each takes a byte or more, `send_string` succeeds once
-- there are as many calls as bytes, leaves the socket open, and has sent the string and a zero.
pub send_string_lem :
    (s : Bytes) (results : List WriteResult)
    → length s + 1 ≤ length results
    → Progress (length s + 1) results
    → Unfailing results
    → send_string s results
      ≡ some (record { result = gen_success; taken = s ++ 0 ∷ []; closed = false })
unfolding send_string
send_string_lem s results l p u =
    let e : length (s ++ 0 ∷ []) ≡ length s + 1 = omega (arith, length-append s (0 ∷ [])) in
    let progress : Progress (length (s ++ 0 ∷ [])) results = rw e p in
    ground (arith, e, write_bytes_lem (s ++ 0 ∷ []) results (omega arith) (omega arith) progress u)

-- A string of at most 255 bytes, with no newline and no zero in it, arrives as it was sent: of what
-- a successful `send_string` has put on the wire `recv_string` reads exactly that string, whatever
-- the array held before and wherever reads are interrupted, and leaves the rest unread.
pub recv_string-send_string :
    (s old : Bytes) (results : List WriteResult) {sent : Sent} {events rest : List ReadEvent}
    → IsLine s
    → length s < max_msg_size
    → length s + 1 ≤ length results
    → Progress (length s + 1) results
    → Unfailing results
    → send_string s results ≡ some sent
    → Arrives rest sent.taken events
    → recv_string events old
      ≡ record { result = gen_success; string = s; rest = rest; closed = false }
unfolding recv_string
recv_string-send_string s old results {sent} {events} {rest} line short l p u e a =
    let on_wire : s ++ 0 ∷ [] ≡ sent.taken = cc (e, send_string_lem s results l p u) in
    ground (
      arith,
      read_line_lem 255 old (omega arith) (Arrives-Spelled a s (sym on_wire) line) (inl refl),
      take_of_le 255 s (omega arith),
    )

-- A peer that closes its side without sending a byte is not told from one that sent a string: then
-- `recv_string` succeeds, and the array still holds the string that it held before the call.
pub recv_string_closed :
    (old : Bytes) {events rest : List ReadEvent}
    → Spelled events [] true rest
    → recv_string events old
      ≡ record { result = gen_success; string = old; rest = rest; closed = false }
unfolding recv_string
recv_string_closed old s = ground (arith, read_line_closed 255 old s)

-- Whatever the peer sends: `recv_string` fails and closes the socket, or it leaves the array as it
-- was, or the array holds a string of fewer than 256 bytes with no terminator in it.
pub recv_string_bounds :
    (old : Bytes) (events : List ReadEvent)
    → let r = recv_string events old in
      ((r.result ≡ gen_err_any) × (r.closed ≡ true))
      ⊎ ((r.result ≡ gen_success) × (r.closed ≡ false) × (r.string ≡ old))
      ⊎ ((r.result ≡ gen_success)
          × (r.closed ≡ false)
          × (length r.string < max_msg_size)
          × IsLine r.string)
unfolding recv_string
recv_string_bounds old events = elim (read_line-Bounded 255 old events) [
  | inl error ↦ inl (ground arith)
  | inr (inl kept) ↦ inr (inl (ground arith))
  | inr (inr (full, fits, line)) ↦
      let same : (read_line events 256 old).buffer ≡ (recv_string events old).string =
        ground arith in
      inr (inr (ground arith, ground arith, ground arith, subst IsLine same line))
]
