-- ===== src/Util/Transfer/Laws.antt =====
-- `write_bytes` and `read_bytes` of src/util.c against the stream that they carry.
use ds_lab_assignment.Prelude.{
  ℕ, zero, suc, ◌+◌, ◌-◌, ◌≤◌, ◌<◌, ◌≡◌, inl, inr, refl, ltb, List, [], ◌∷◌, ◌++◌, append_assoc,
  some, length, take, drop, length-append, take_of_le, pos, Bytes, arith, Bool-cases,
}
use ds_lab_assignment.Util.Transfer.{
  WriteResult, wrote, ReadResult, got, write_loop, write_bytes, read_loop, read_bytes,
}

-- Each call takes at least one byte and at most what is left: a descriptor that makes progress.
abbrev pub Progress : ℕ → List WriteResult → Type 0
Progress left [] = Unit
Progress left (WriteResult.failed ∷ results) = Progress left results
Progress left (wrote k ∷ results) = (0 < k) × (k ≤ left) × Progress (left - k) results

-- no call fails
abbrev pub Unfailing : List WriteResult → Type 0
Unfailing [] = Unit
Unfailing (WriteResult.failed ∷ results) = ⊥
Unfailing (wrote k ∷ results) = Unfailing results

take-append-drop : (n : ℕ) (xs : Bytes) → take n xs ++ drop n xs ≡ xs
take-append-drop zero xs = refl
take-append-drop (suc n) [] = refl
take-append-drop (suc n) (x ∷ xs) = rw (take-append-drop n xs)

length-drop : (n : ℕ) (xs : Bytes) → length (drop n xs) ≡ length xs - n
length-drop zero xs = omega arith
length-drop (suc n) [] = omega arith
length-drop (suc n) (x ∷ xs) = omega (arith, length-drop n xs)

write_loop_lem :
    (buffer : Bytes) (left total : ℕ) (out : Bytes) (results : List WriteResult)
    → length buffer ≡ left
    → 0 < left
    → left ≤ length results
    → Progress left results
    → Unfailing results
    → write_loop buffer left total out results ≡ some (pos (total + left), out ++ buffer)
unfolding write_loop
write_loop_lem buffer left total out [] e h l p u = absurd (omega arith)
write_loop_lem buffer left total out (WriteResult.failed ∷ results) e h l p u = absurd u
write_loop_lem buffer left total out (wrote k ∷ results) e h l p u =
    elim (Bool-cases (ltb 0 (left - k))) [
      | inl more ↦ ground (
        arith,
        length-drop k buffer,
        append_assoc out (take k buffer) (drop k buffer),
        take-append-drop k buffer,
        write_loop_lem (drop k buffer) (left - k) (total + k) (out ++ take k buffer) results,
      )
      | inr done ↦ ground (arith, take_of_le k buffer)
    ]

-- If no call of `write` fails and each takes at least one byte, `write_bytes` of a whole buffer
-- returns after at most as many calls as there are bytes: it returns the buffer's length, and the
-- descriptor has taken the buffer, in order.
pub write_bytes_lem :
    (buffer : Bytes) (results : List WriteResult)
    → 0 < length buffer
    → length buffer ≤ length results
    → Progress (length buffer) results
    → Unfailing results
    → write_bytes buffer (length buffer) results ≡ some (pos (length buffer), buffer)
unfolding write_bytes
write_bytes_lem buffer results h l p u =
    ground (arith, write_loop_lem buffer (length buffer) 0 [] results refl h l p u)

-- What the reads deliver: so many bytes in all, ended by an empty read or by the last byte asked for.
pub data Delivers : ℕ → List ReadResult → Bytes → Type 0 where
  end : {left : ℕ} {results : List ReadResult} → Delivers left (got [] ∷ results) []
  last :
      {left : ℕ} {bytes : Bytes} {results : List ReadResult}
      → length bytes ≡ left
      → Delivers left (got bytes ∷ results) bytes
  part :
      {left : ℕ} {bytes rest : Bytes} {results : List ReadResult}
      → 0 < length bytes
      → length bytes < left
      → Delivers (left - length bytes) results rest
      → Delivers left (got bytes ∷ results) (bytes ++ rest)

read_loop_lem :
    {left : ℕ} {results : List ReadResult} {bytes : Bytes}
    → Delivers left results bytes
    → 0 < left
    → (total : ℕ) (buffer : Bytes)
    → read_loop left total buffer results ≡ some (pos (total + length bytes), buffer ++ bytes)
unfolding read_loop
read_loop_lem end h total buffer = ground arith
read_loop_lem (last e) h total buffer = ground arith
read_loop_lem (part {bytes} {rest} p l d) h total buffer = ground (
  arith,
  read_loop_lem d (omega arith) (total + length bytes) (buffer ++ bytes),
  append_assoc buffer bytes rest,
  length-append bytes rest,
)

-- `read_bytes` puts together what the calls of `read` deliver, however it is cut into pieces, until
-- it has the bytes asked for or the input ends, and returns how many bytes there are.
pub read_bytes_lem :
    {results : List ReadResult} {bytes : Bytes} (len : ℕ)
    → 0 < len
    → Delivers len results bytes
    → read_bytes len results ≡ some (pos (length bytes), bytes)
unfolding read_bytes
read_bytes_lem len h d = ground (arith, read_loop_lem d h 0 [])
