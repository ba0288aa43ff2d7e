-- ===== src/Util/ReadLine/Reference.antt =====
-- `read_line` of src/util.c against a definition that reads first and cuts afterwards.
use ds_lab_assignment.Prelude.{
  ℕ, suc, ◌+◌, ◌-◌, ◌≤◌, ◌≡◌, refl, ap, ◌∙◌, ◌==◌, if◌then◌else◌, List, [], ◌∷◌, ◌++◌, append_assoc,
  append-nil, arith, ltb, length, take, drop, length-append, take_of_le, pos, Bytes, Bool-cases,
  inl, inr,
}
use ds_lab_assignment.Util.Codes.{gen_err_any}
use ds_lab_assignment.Util.ReadLine.{
  ReadEvent, byte, eintr, fault, Line, ends_line, read_loop, read_line,
}
use ds_lab_assignment.Util.ReadLine.Laws.{outcome, take-append_full}

-- How the bytes of a line come to an end.
pub data Ending : Type 0 where
  stopped closed failed : Ending

pub record Piece : Type 0 where
  pub text : Bytes
  pub ending : Ending
  pub rest : List ReadEvent

-- All bytes up to the first terminator, error or close, without the interrupted calls.
unfoldable pub piece : List ReadEvent → Piece
piece [] = record { text = []; ending = closed; rest = [] }
piece (eintr ∷ events) = piece events
piece (fault ∷ events) = record { text = []; ending = failed; rest = events }
piece (byte ch ∷ events) =
    let p = piece events in
    if ends_line ch
    then record { text = []; ending = stopped; rest = events }
    else record p { text = ch ∷ p.text }

-- the first `n` bytes of a text, as the ending wants them
abbrev pub cut : ℕ → Bytes → Bytes → Ending → List ReadEvent → Line
cut n old text stopped rest = outcome n text rest
cut n old text closed rest =
    if length (take n text) == 0
    then record { result = pos 0; buffer = old; rest = rest }
    else outcome n text rest
cut n old text failed rest = record {
  result = gen_err_any;
  buffer = take n text ++ drop (length (take n text)) old;
  rest = rest;
}

abbrev pub reference : ℕ → Bytes → List ReadEvent → Line
reference n old events = let p = piece events in cut n old p.text p.ending p.rest

-- Nothing is taken from behind a text that fills the room.
cut-full :
    (n : ℕ) (old out xs ys : Bytes) (ending : Ending) (rest : List ReadEvent)
    → length out ≡ n
    → cut n old (out ++ xs) ending rest ≡ cut n old (out ++ ys) ending rest
cut-full n old out xs ys stopped rest e =
    rw (take-append_full n out xs e, take-append_full n out ys e) refl
cut-full n old out xs ys closed rest e =
    rw (take-append_full n out xs e, take-append_full n out ys e) refl
cut-full n old out xs ys failed rest e =
    rw (take-append_full n out xs e, take-append_full n out ys e) refl

module _ (n : ℕ) (old : Bytes) where
  read_loop-cut :
      (events : List ReadEvent) (total : ℕ) (out : Bytes)
      → length out ≡ total
      → total ≤ n
      → read_loop (suc n) old events total out
        ≡ cut n old (out ++ (piece events).text) (piece events).ending (piece events).rest
  unfolding read_loop piece
  read_loop-cut [] total out e h = rw (append-nil, take_of_le n out (omega arith), e) (ground arith)
  read_loop-cut (eintr ∷ events) total out e h = read_loop-cut events total out e h
  read_loop-cut (fault ∷ events) total out e h =
      rw (append-nil, take_of_le n out (omega arith), e) refl
  read_loop-cut (byte ch ∷ events) total out e h = elim (Bool-cases (ends_line ch)) [
    | inl ends ↦ rw (ends, append-nil, take_of_le n out (omega arith), e) refl
    | inr goes ↦ elim (Bool-cases (ltb total (suc n - 1))) [
      | inl room ↦
          let p = piece events in
          let more : length (out ++ ch ∷ []) ≡ total + 1 =
            omega (arith, length-append out (ch ∷ [])) in
          let ih = read_loop-cut events (total + 1) (out ++ ch ∷ []) more (ground arith) in
          rw (goes, room)
            (ih ∙ ap (λ text. cut n old text p.ending p.rest) (append_assoc out (ch ∷ []) p.text))
      | inr full ↦
          let p = piece events in
          let is_full : length out ≡ n = ground arith in
          rw (goes, full)
            (read_loop-cut events total out e h
              ∙ cut-full n old out p.text (ch ∷ p.text) p.ending p.rest is_full)
    ]
  ]

  -- Whatever the peer sends, with errors and interrupted calls anywhere: `read_line` with room for a
  -- zero and `n` bytes, n of any size, does what `reference` does, which takes all bytes up to the
  -- first terminator, error or close, without the interrupted calls, and keeps the first `n` of them.
  -- Only behind an error the rest of the old buffer is kept too, and at a close with nothing stored
  -- the whole old buffer.
  pub read_line-reference :
      (events : List ReadEvent) → read_line events (suc n) old ≡ reference n old events
  unfolding read_line
  read_line-reference events = read_loop-cut events 0 [] refl (omega arith)
