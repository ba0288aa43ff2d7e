-- ===== src/Util/ReadLine/Laws.antt =====
-- What `read_line` of src/util.c leaves in the buffer: the bound, the content, and the case in which
-- it leaves the buffer alone.
use ds_lab_assignment.Prelude.{
  ℕ, suc, ◌+◌, ◌≤◌, ◌<◌, ◌≡◌, ◌⊎◌, inl, inr, refl, Bool, true, false, List, [], ◌∷◌, ◌++◌,
  append_assoc, append-nil, arith, ltb, length, take, length-append, take_of_le, All, pos, ◌-◌,
  Bytes, Bool-cases, if_elim,
}
use ds_lab_assignment.Util.Codes.{gen_err_any}
use ds_lab_assignment.Util.ReadLine.{
  ReadEvent, byte, eintr, fault, Line, ends_line, read_loop, read_line, Spelled, close, stop, again,
  char,
}

take-append_length {ℓ} : {A : Type ℓ} (xs ys : List A) → take (length xs) (xs ++ ys) ≡ xs
take-append_length [] ys = refl
take-append_length (x ∷ xs) ys = rw (take-append_length xs ys)

pub take-append_full {ℓ} :
    {A : Type ℓ} (n : ℕ) (xs ys : List A) → length xs ≡ n → take n (xs ++ ys) ≡ xs
take-append_full n xs ys e = rw (← e) (take-append_length xs ys)

-- what the loop returns once it has stored `line` behind `out`, with room for `n` bytes
abbrev pub outcome : ℕ → Bytes → List ReadEvent → Line
outcome n line rest = record {
  result = pos (length (take n line));
  buffer = take n line;
  rest = rest;
}

module _ (n : ℕ) (some_room : 0 < n) (old : Bytes) where
  read_loop_lem :
      {events rest : List ReadEvent} {line : Bytes} {closed : Bool}
      → Spelled events line closed rest
      → (total : ℕ) (out : Bytes) → length out ≡ total
      → total ≤ n
      → (closed ≡ false) ⊎ (0 < length (out ++ line))
      → read_loop (suc n) old events total out ≡ outcome n (out ++ line) rest
  unfolding read_loop
  read_loop_lem close total out e h (inl c) = cc
  read_loop_lem close total out e h (inr c) =
      rw (append-nil, take_of_le n out (omega arith)) (ground (arith, append-nil out))
  read_loop_lem (stop t) total out e h c =
      rw (append-nil, take_of_le n out (omega arith)) (ground arith)
  read_loop_lem (again s) total out e h c = read_loop_lem s total out e h c
  read_loop_lem (char {ch} {line} t s) total out e h c = elim (Bool-cases (ltb total n)) [
    | inl room ↦ ground (
      arith,
      length-append out (ch ∷ []),
      length-append (out ++ ch ∷ []) line,
      append_assoc out (ch ∷ []) line,
      read_loop_lem s (total + 1) (out ++ ch ∷ []),
    )
    | inr full ↦ ground (
      arith,
      length-append out line,
      read_loop_lem s total out,
      take-append_full n out line,
      take-append_full n out (ch ∷ line),
    )
  ]

-- A line that holds a byte or ends by a terminator is read to its end: `read_line` with room for a
-- zero and `n` bytes, 0 < n, stores its first `n` bytes, returns their number, and leaves what
-- follows the line unread. A line that is longer is cut, and interrupted reads change nothing.
pub read_line_lem :
    {events rest : List ReadEvent} {line : Bytes} {closed : Bool} (n : ℕ) (old : Bytes)
    → 0 < n
    → Spelled events line closed rest
    → (closed ≡ false) ⊎ (0 < length line)
    → read_line events (suc n) old ≡ outcome n line rest
unfolding read_line
read_line_lem n old room s c = read_loop_lem n room old s 0 [] refl (omega arith) c

module _ (n : ℕ) (old : Bytes) where
  read_loop_closed :
      {events rest : List ReadEvent} {line : Bytes} {closed : Bool}
      → Spelled events line closed rest
      → closed ≡ true
      → line ≡ []
      → read_loop (suc n) old events 0 [] ≡ record { result = pos 0; buffer = old; rest = rest }
  unfolding read_loop
  read_loop_closed close c e = refl
  read_loop_closed (stop t) c e = cc
  read_loop_closed (again s) c e = read_loop_closed s c e
  read_loop_closed (char t s) c e = cc

  -- A peer that closes its side before it sends a byte: `read_line` returns 0, which is no error, and
  -- the buffer keeps what it held before the call, with no zero written.
  pub read_line_closed :
      {events rest : List ReadEvent}
      → Spelled events [] true rest
      → read_line events (suc n) old ≡ record { result = pos 0; buffer = old; rest = rest }
  unfolding read_line
  read_line_closed s = read_loop_closed s refl refl

-- What a call of `read_line` may leave: an error, the old buffer with result 0, or a string of at
-- most `n` bytes none of which ends a line, with its length as the result.
abbrev pub Bounded : ℕ → Bytes → Line → Type 0
Bounded n old r =
    (r.result ≡ gen_err_any)
    ⊎ ((r.result ≡ pos 0) × (r.buffer ≡ old))
    ⊎ ((r.result ≡ pos (length r.buffer))
        × (length r.buffer ≤ n)
        × All (λ ch. ends_line ch ≡ false) r.buffer)

All-concat :
    (out : Bytes) (ch : ℕ)
    → All (λ c. ends_line c ≡ false) out
    → ends_line ch ≡ false
    → All (λ c. ends_line c ≡ false) (out ++ ch ∷ [])
All-concat [] ch a h = (h, tt)
All-concat (c ∷ out) ch a h = (a.0, All-concat out ch a.1 h)

module _ (n : ℕ) (old : Bytes) where
  read_loop-Bounded :
      (events : List ReadEvent) (total : ℕ) (out : Bytes)
      → length out ≡ total
      → total ≤ n
      → All (λ ch. ends_line ch ≡ false) out
      → Bounded n old (read_loop (suc n) old events total out)
  unfolding read_loop
  read_loop-Bounded [] total out e h a = ground arith
  read_loop-Bounded (eintr ∷ events) total out e h a = read_loop-Bounded events total out e h a
  read_loop-Bounded (fault ∷ events) total out e h a = inl refl
  read_loop-Bounded (byte ch ∷ events) total out e h a =
      if_elim (Bounded n old) (ends_line ch) (λ ends. inr (inr (ground arith, ground arith, a)))
        λ goes.
          if_elim (Bounded n old) (ltb total (suc n - 1))
            (λ room.
              read_loop-Bounded events (total + 1) (out ++ ch ∷ [])
                (omega (arith, length-append out (ch ∷ []))) (ground arith)
                (All-concat out ch a goes))
            (λ full. read_loop-Bounded events total out e h a)

  -- Whatever the peer sends, with errors and interrupted calls anywhere: `read_line` with room for a
  -- zero and `n` bytes either fails, or returns 0 and leaves the buffer alone, or leaves a string of
  -- at most `n` bytes, none of them a terminator, and returns its length.
  pub read_line-Bounded : (events : List ReadEvent) → Bounded n old (read_line events (suc n) old)
  unfolding read_line
  read_line-Bounded events = read_loop-Bounded events 0 [] refl (omega arith) tt
