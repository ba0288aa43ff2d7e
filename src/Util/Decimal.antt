-- ===== src/Util/Decimal.antt =====
-- The two library calls that carry message IDs and ports as text: `sprintf ("%u")` and `strtol` with
-- base 10, on a platform with a 64-bit `long`.
pub mod Laws
use ds_lab_assignment.Prelude.{
  ℕ, zero, suc, ◌+◌, ◌-◌, ◌*◌, ◌/◌, ◌%◌, ◌^◌, ltb, leb, ◌==◌, if◌then◌else◌, Bool, true, false,
  ◌&&◌, ◌||◌, List, [], ◌∷◌, Bytes,
}

digits : ℕ → ℕ → Bytes → Bytes
digits zero n out = out
digits (suc fuel) n out = elim (ltb n 10) [
  | true ↦ (b'0' + n) ∷ out
  | false ↦ digits fuel (n / 10) ((b'0' + n % 10) ∷ out)
]

-- `sprintf (s, "%u", n)`. A number has at most as many digits as its value and one more.
unfoldable pub decimal : ℕ → Bytes
unfolding digits
decimal n = digits (suc n) n []

abbrev pub is_digit : ℕ → Bool
is_digit c = leb b'0' c && leb c b'9'

-- `isspace`
abbrev pub is_space : ℕ → Bool
is_space c = c == 32 || (leb 9 c && leb c 13)

-- The number that the digits at the front spell, behind those already read.
unfoldable pub scan : ℕ → Bytes → ℕ
scan n [] = n
scan n (c ∷ s) = let next = scan (n * 10 + (c - b'0')) s in if is_digit c then next else n

abbrev pub starts_by_digit : Bytes → Bool
starts_by_digit [] = false
starts_by_digit (c ∷ s) = is_digit c

-- `strtol`: the sign and the magnitude, whether `errno` is ERANGE, and whether `endptr` has moved.
pub record Strtol : Type 0 where
  pub negative : Bool
  pub magnitude : ℕ
  pub erange : Bool
  pub moved : Bool

abbrev pub long_max : ℕ
long_max = 2 ^ 63 - 1

-- The number behind the sign; what does not fit a `long` is cut to its ends.
unfoldable pub convert : Bool → Bytes → Strtol
unfolding scan
convert negative s =
    let limit = if negative then long_max + 1 else long_max in
    let n = scan 0 s in
    record {
      negative = negative;
      magnitude = if ltb limit n then limit else n;
      erange = ltb limit n;
      moved = starts_by_digit s;
    }

unfoldable pub strtol : Bytes → Strtol
unfolding convert
strtol [] = convert false []
strtol (c ∷ s) =
    let rest = strtol s in
    if is_space c
    then rest
    else if c == b'-'
    then convert true s
    else if c == b'+'
    then convert false s
    else convert false (c ∷ s)

-- The low 32 bits of a `long`: the cast to `int` or `unsigned int`.
unfoldable pub low_word : Strtol → ℕ
low_word r = if r.negative then (2 ^ 32 - r.magnitude % 2 ^ 32) % 2 ^ 32 else r.magnitude % 2 ^ 32
