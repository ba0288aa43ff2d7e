-- ===== src/Util/ReadLine.antt =====
-- `read_line` of src/util.c over the results of its calls of `read`, one byte each.
pub mod Laws
pub mod Reference
use ds_lab_assignment.Prelude.{
  ℕ, zero, suc, ◌+◌, ◌-◌, ◌≡◌, Bool, true, false, ◌||◌, List, [], ◌∷◌, ◌++◌, ltb, ◌==◌,
  if◌then◌else◌, drop, ℤ, pos, Bytes,
}
use ds_lab_assignment.Util.Codes.{gen_err_any, gen_err_inv_args}

-- What one `read (d, &ch, 1)` does: a byte, EINTR, or another error. Behind the last event the peer
-- has closed its side, and `read` returns 0.
pub data ReadEvent : Type 0 where
  byte : ℕ → ReadEvent
  eintr : ReadEvent
  fault : ReadEvent

-- The result, the string in the buffer, and the events that are left.
pub record Line : Type 0 where
  pub result : ℤ
  pub buffer : Bytes
  pub rest : List ReadEvent

-- `ch == '\n' || ch == '\0'`
abbrev pub ends_line : ℕ → Bool
ends_line ch = ch == 10 || ch == 0

-- The loop. `out` is what stands before the pointer `buffer`, `old` what the caller's array held.
-- On an error no terminating zero is written.
read_loop : ℕ → Bytes → List ReadEvent → ℕ → Bytes → Line
read_loop buf_space old [] total out =
    if total == 0
    then record { result = pos 0; buffer = old; rest = [] }
    else record { result = pos total; buffer = out; rest = [] }
read_loop buf_space old (eintr ∷ events) total out = read_loop buf_space old events total out
read_loop buf_space old (fault ∷ events) total out = record {
  result = gen_err_any;
  buffer = out ++ drop total old;
  rest = events;
}
read_loop buf_space old (byte ch ∷ events) total out =
    let stored = read_loop buf_space old events (total + 1) (out ++ ch ∷ []) in
    let discarded = read_loop buf_space old events total out in
    if ends_line ch
    then record { result = pos total; buffer = out; rest = events }
    else if ltb total (buf_space - 1)
    then stored
    else discarded

-- `read_line`, with the string that the array held before. `buf_space - 1` runs only at
-- `0 < buf_space`.
unfoldable pub read_line : List ReadEvent → ℕ → Bytes → Line
unfolding read_loop
read_line events zero old = record { result = gen_err_inv_args; buffer = old; rest = events }
read_line events (suc n) old = read_loop (suc n) old events 0 []

-- The events spell a line, of any length, and what follows it. The flag says that the line ends by
-- the peer closing, and not by a terminator.
pub data Spelled : List ReadEvent → Bytes → Bool → List ReadEvent → Type 0 where
  close : Spelled [] [] true []
  stop :
      {ch : ℕ} {events : List ReadEvent}
      → ends_line ch ≡ true
      → Spelled (byte ch ∷ events) [] false events
  again :
      {events rest : List ReadEvent} {line : Bytes} {closed : Bool}
      → Spelled events line closed rest
      → Spelled (eintr ∷ events) line closed rest
  char :
      {ch : ℕ} {events rest : List ReadEvent} {line : Bytes} {closed : Bool}
      → ends_line ch ≡ false
      → Spelled events line closed rest
      → Spelled (byte ch ∷ events) (ch ∷ line) closed rest
