-- ===== src/Util/StrToNum/Laws.antt =====
-- What `str_to_num` of src/util.c accepts, and the number that it writes.
use ds_lab_assignment.Prelude.{
  ℕ, ◌%◌, ◌^◌, ◌<◌, ◌≡◌, ◌≢◌, refl, true, false, [], ◌∷◌, ◌++◌, Bytes, arith, some, ℤ, Bool, not,
  is_neg, if◌then◌else◌,
}
use ds_lab_assignment.Util.Codes.{gen_success, gen_err_any}
use ds_lab_assignment.Util.Decimal.{
  decimal, is_digit, is_space, scan, starts_by_digit, convert, strtol, low_word,
}
use ds_lab_assignment.Util.Decimal.Laws.{
  Digits, strtol_of_digit, starts-decimal, scan-decimal, scan-append, starts-append,
}
use ds_lab_assignment.Util.StrToNum.{
  Strtof, CastType, Cast, cast_long, cast_float, cast_failed, str_to_num,
}

cast_long_of_digit :
    (s : Bytes)
    → starts_by_digit s ≡ true
    → scan 0 s < 2 ^ 63
    → cast_long s ≡ record { result = gen_success; number = some (scan 0 s % 2 ^ 32) }
unfolding cast_long convert low_word
cast_long_of_digit s h fits = rw (strtol_of_digit s h) (ground arith)

str_to_num-cast_long :
    (s : Bytes) → starts_by_digit s ≡ true → str_to_num s CastType.int ≡ cast_long s
unfolding str_to_num
str_to_num-cast_long [] h = cc
str_to_num-cast_long (c ∷ s) h = refl

pub str_to_num-uint : (s : Bytes) → str_to_num s CastType.uint ≡ str_to_num s CastType.int
unfolding str_to_num
str_to_num-uint [] = refl
str_to_num-uint (c ∷ s) = refl

-- A message ID that `sprintf ("%u")` printed as a file name is read back unchanged by `str_to_num`
-- with type UINT: for every unsigned int the cast succeeds and gives that number.
pub str_to_num-decimal :
    (n : ℕ)
    → n < 2 ^ 32
    → str_to_num (decimal n) CastType.uint ≡ record { result = gen_success; number = some n }
str_to_num-decimal n h =
    rw (str_to_num-uint, str_to_num-cast_long (decimal n) (starts-decimal n))
      (ground (arith, cast_long_of_digit (decimal n) (starts-decimal n), scan-decimal n))

-- A text of digits whose value fits a `long` is accepted whatever follows the digits, and the number
-- written is that value modulo 2 ^ 32: what stands behind the digits is not checked, and what does
-- not fit an int wraps around.
pub str_to_num-Digits :
    (ds tail : Bytes)
    → Digits ds
    → ds ≢ []
    → starts_by_digit tail ≡ false
    → scan 0 ds < 2 ^ 63
    → str_to_num (ds ++ tail) CastType.int
      ≡ record { result = gen_success; number = some (scan 0 ds % 2 ^ 32) }
str_to_num-Digits ds tail d h t fits =
    let starts = starts-append ds tail d h in
    rw (str_to_num-cast_long (ds ++ tail) starts)
      (ground (arith, cast_long_of_digit (ds ++ tail) starts, scan-append ds tail 0 d t))

cast_long_rejects :
    (c : ℕ) (s : Bytes)
    → is_digit c ≡ false
    → is_space c ≡ false
    → (c ≢ b'-') × (c ≢ b'+')
    → cast_long (c ∷ s) ≡ cast_failed gen_err_any
unfolding cast_long strtol convert scan
cast_long_rejects c s d w g = ground arith

-- A text that begins with no digit, space or sign is refused with GEN_ERR_ANY, for both types, and
-- no number is written.
pub str_to_num_rejects :
    (c : ℕ) (s : Bytes)
    → is_digit c ≡ false
    → is_space c ≡ false
    → (c ≢ b'-') × (c ≢ b'+')
    → (str_to_num (c ∷ s) CastType.int ≡ cast_failed gen_err_any)
      × (str_to_num (c ∷ s) CastType.uint ≡ cast_failed gen_err_any)
unfolding str_to_num
str_to_num_rejects c s d w g = (cast_long_rejects c s d w g, cast_long_rejects c s d w g)

-- `number` is written exactly if the result is 0.
pub data Written : Cast → Type 0 where
  written : (n : ℕ) → Written (record { result = gen_success; number = some n })
  failed : (code : ℤ) → is_neg code ≡ true → Written (cast_failed code)

Written-if : (b : Bool) (c d : Cast) → Written c → Written d → Written (if b then c else d)
Written-if true c d h k = h
Written-if false c d h k = k

cast_long-Written : (s : Bytes) → Written (cast_long s)
unfolding cast_long
cast_long-Written s =
    let r = strtol s in
    Written-if r.erange _ _ (failed gen_err_any refl)
      (Written-if (not r.moved) _ _ (failed gen_err_any refl) (written (low_word r)))

cast_float-Written : (r : Strtof) → Written (cast_float r)
unfolding cast_float
cast_float-Written r =
    Written-if r.errno _ _ (failed gen_err_any refl)
      (Written-if (not r.moved) _ _ (failed gen_err_any refl) (written r.word))

-- For any string and any type, known or not, whatever the library's `strtof` gives: `str_to_num` returns 0
-- and writes the number, or it returns a negative code and leaves the number unwritten.
pub str_to_num-Written : (s : Bytes) (t : CastType) → Written (str_to_num s t)
unfolding str_to_num cast_failed cast_long
str_to_num-Written s CastType.invalid = failed _ refl
str_to_num-Written [] CastType.int = failed _ refl
str_to_num-Written [] CastType.uint = failed _ refl
str_to_num-Written [] (CastType.float strtof) = failed _ refl
str_to_num-Written (c ∷ s) CastType.int = cast_long-Written (c ∷ s)
str_to_num-Written (c ∷ s) CastType.uint = cast_long-Written (c ∷ s)
str_to_num-Written (c ∷ s) (CastType.float strtof) = cast_float-Written (strtof (c ∷ s))
