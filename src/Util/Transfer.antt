-- ===== src/Util/Transfer.antt =====
-- `write_bytes` and `read_bytes` of src/util.c over the results of their calls of `write` and `read`.
-- A list of results that runs out is a call that has not returned: the outcome is then `none`.
pub mod Laws
use ds_lab_assignment.Prelude.{
  ℕ, zero, suc, ◌+◌, ◌-◌, ltb, if◌then◌else◌, ◌==◌, List, [], ◌∷◌, ◌++◌, Option, none, some, length,
  take, drop, ℤ, pos, Bytes,
}
use ds_lab_assignment.Util.Codes.{gen_err_any, gen_err_inv_args}

-- What a call `write (d, buffer, left)` does: it takes so many bytes, at most `left`, or fails.
pub data WriteResult : Type 0 where
  wrote : ℕ → WriteResult
  failed : WriteResult

-- What a call `read (d, buffer, left)` does: it gives at most `left` bytes, none at the end of the
-- input, or fails.
pub data ReadResult : Type 0 where
  got : Bytes → ReadResult
  failed : ReadResult

-- The loop of `write_bytes`, with what the descriptor has taken so far. `buffer` is what is left
-- from the pointer on.
write_loop : Bytes → ℕ → ℕ → Bytes → List WriteResult → Option (ℤ × Bytes)
write_loop buffer left total out [] = none
write_loop buffer left total out (failed ∷ results) = some (gen_err_any, out)
write_loop buffer left total out (wrote k ∷ results) =
    let next = write_loop (drop k buffer) (left - k) (total + k) (out ++ take k buffer) results in
    if ltb 0 (left - k) then next else some (pos (total + k), out ++ take k buffer)

-- `write_bytes`: the result, and the bytes that the descriptor has taken.
pub write_bytes : Bytes → ℕ → List WriteResult → Option (ℤ × Bytes)
unfolding write_loop
write_bytes buffer len results =
    if len == 0 then some (gen_err_inv_args, []) else write_loop buffer len 0 [] results

-- The loop of `read_bytes`, with what the buffer holds so far.
read_loop : ℕ → ℕ → Bytes → List ReadResult → Option (ℤ × Bytes)
read_loop left total buffer [] = none
read_loop left total buffer (failed ∷ results) = some (gen_err_any, buffer)
read_loop left total buffer (got bytes ∷ results) =
    let k = length bytes in
    let next = read_loop (left - k) (total + k) (buffer ++ bytes) results in
    if ltb 0 (left - k)
    then (if ltb 0 k then next else some (pos (total + k), buffer ++ bytes))
    else some (pos (total + k), buffer ++ bytes)

-- `read_bytes`: the result, and the bytes that it has put into the buffer.
pub read_bytes : ℕ → List ReadResult → Option (ℤ × Bytes)
unfolding read_loop
read_bytes len results =
    if len == 0 then some (gen_err_inv_args, []) else read_loop len 0 [] results
