-- ===== src/Util/StrToNum.antt =====
-- `str_to_num` of src/util.c. What `strtof` of the C library gives is a parameter of its type FLOAT.
use ds_lab_assignment.Prelude.{ℕ, if◌then◌else◌, not, [], ◌∷◌, Option, none, some, ℤ, Bytes, Bool}
use ds_lab_assignment.Util.Codes.{gen_success, gen_err_any, gen_err_inv_args}
use ds_lab_assignment.Util.Decimal.{strtol, low_word}
pub mod Laws

-- What `strtof` gives: the bit pattern of the float, whether it has set `errno`, and whether `endptr` has
-- moved.
pub record Strtof : Type 0 where
  pub word : ℕ
  pub errno : Bool
  pub moved : Bool

-- INT, UINT, FLOAT with the library's `strtof`, or a byte that is no type
pub data CastType : Type 0 where
  int uint invalid : CastType
  float : (Bytes → Strtof) → CastType

-- The result, and the word written to `number`, if one is. It is the bit pattern of the 32-bit int,
-- unsigned int or float.
pub record Cast : Type 0 where
  pub result : ℤ
  pub number : Option ℕ

unfoldable pub cast_failed : ℤ → Cast
cast_failed code = record { result = code; number = none }

-- the casts of integers and the checks behind them
cast_long : Bytes → Cast
unfolding cast_failed strtol low_word
cast_long string =
    let r = strtol string in
    if r.erange
    then cast_failed gen_err_any
    else if not r.moved
    then cast_failed gen_err_any
    else record { result = gen_success; number = some (low_word r) }

-- the cast of a float and the checks behind it
cast_float : Strtof → Cast
unfolding cast_failed
cast_float r =
    if r.errno
    then cast_failed gen_err_any
    else if not r.moved
    then cast_failed gen_err_any
    else record { result = gen_success; number = some r.word }

-- `str_to_num`
unfoldable pub str_to_num : Bytes → CastType → Cast
unfolding cast_long cast_float cast_failed
str_to_num string CastType.invalid = cast_failed gen_err_inv_args
str_to_num [] CastType.int = cast_failed gen_err_inv_args
str_to_num [] CastType.uint = cast_failed gen_err_inv_args
str_to_num (c ∷ string) CastType.int = cast_long (c ∷ string)
str_to_num (c ∷ string) CastType.uint = cast_long (c ∷ string)
str_to_num [] (CastType.float strtof) = cast_failed gen_err_inv_args
str_to_num (c ∷ string) (CastType.float strtof) = cast_float (strtof (c ∷ string))
