-- ===== src/Util/Decimal/Laws.antt =====
-- Printed numbers: their length, their digits, and reading them back.
use native.Mathlib.Nat.{pow-suc}
use ds_lab_assignment.Prelude.{
  ℕ, zero, suc, ◌+◌, ◌-◌, ◌*◌, ◌/◌, ◌%◌, ◌^◌, ◌≤◌, ◌<◌, ◌≡◌, ◌≢◌, refl, ltb, true, false, [], ◌∷◌,
  Bytes, arith, length, All, Bool-cases, inl, inr, ◌++◌,
}
use ds_lab_assignment.Util.Decimal.{
  digits, decimal, is_digit, scan, starts_by_digit, convert, strtol,
}

digits-length :
    (fuel n k : ℕ) (out : Bytes)
    → n < fuel
    → n < 10 ^ suc k
    → length (digits fuel n out) ≤ suc k + length out
unfolding digits
digits-length zero n k out f h = absurd (omega arith)
digits-length (suc fuel) n zero out f h = ground arith
digits-length (suc fuel) n (suc k) out f h = elim (Bool-cases (ltb n 10)) [
  | inl small ↦ ground arith
  | inr large ↦
      let bound : n / 10 < 10 ^ suc k = omega (arith, pow-suc 10 (suc k)) in
      ground (arith, digits-length fuel (n / 10) k ((b'0' + n % 10) ∷ out))
]

-- a number below 10 ^ (k + 1) prints as at most k + 1 digits
pub length-decimal : (n k : ℕ) → n < 10 ^ suc k → length (decimal n) ≤ suc k
unfolding decimal
length-decimal n k h = omega (arith, digits-length (suc n) n k [] (omega arith) h)

scan_last : (n : ℕ) (out : Bytes) → scan (n / 10) ((b'0' + n % 10) ∷ out) ≡ scan n out
unfolding scan
scan_last n out = ground arith

scan-digits : (fuel n : ℕ) (out : Bytes) → n < fuel → scan 0 (digits fuel n out) ≡ scan n out
unfolding digits
scan-digits zero n out h = absurd (omega arith)
scan-digits (suc fuel) n out h = elim (Bool-cases (ltb n 10)) [
  | inl small ↦ unfold scan in ground arith
  | inr large ↦ ground (arith, scan_last n out, scan-digits fuel (n / 10) ((b'0' + n % 10) ∷ out))
]

starts-digits : (fuel n : ℕ) (out : Bytes) → n < fuel → starts_by_digit (digits fuel n out) ≡ true
unfolding digits
starts-digits zero n out h = absurd (omega arith)
starts-digits (suc fuel) n out h =
    ground (arith, starts-digits fuel (n / 10) ((b'0' + n % 10) ∷ out))

pub strtol_of_digit : (s : Bytes) → starts_by_digit s ≡ true → strtol s ≡ convert false s
unfolding strtol
strtol_of_digit [] h = cc
strtol_of_digit (c ∷ s) h = ground arith

pub starts-decimal : (n : ℕ) → starts_by_digit (decimal n) ≡ true
unfolding decimal
starts-decimal n = starts-digits (suc n) n [] (omega arith)

pub scan-decimal : (n : ℕ) → scan 0 (decimal n) ≡ n
unfolding decimal scan
scan-decimal n = scan-digits (suc n) n [] (omega arith)

-- every byte of a printed number is a digit
abbrev pub Digits : Bytes → Type 0
Digits = All (λ c. is_digit c ≡ true)

digits-Digits : (fuel n : ℕ) (out : Bytes) → n < fuel → Digits out → Digits (digits fuel n out)
unfolding digits
digits-Digits zero n out h d = absurd (omega arith)
digits-Digits (suc fuel) n out h d = elim (Bool-cases (ltb n 10)) [
  | inl small ↦ rw (small, digits) (ground arith, d)
  | inr large ↦
      rw (large, digits)
        (digits-Digits fuel (n / 10) ((b'0' + n % 10) ∷ out) (ground arith) (ground arith, d))
]

pub decimal-Digits : (n : ℕ) → Digits (decimal n)
unfolding decimal
decimal-Digits n = digits-Digits (suc n) n [] (omega arith) tt

-- digits, and behind them a byte that is no digit, or nothing
pub scan-append :
    (ds tail : Bytes) (n : ℕ)
    → Digits ds
    → starts_by_digit tail ≡ false
    → scan n (ds ++ tail) ≡ scan n ds
unfolding scan
scan-append [] [] n d t = refl
scan-append [] (c ∷ tail) n d t = ground arith
scan-append (c ∷ ds) tail n d t = ground (arith, scan-append ds tail (n * 10 + (c - b'0')))

pub starts-append : (ds tail : Bytes) → Digits ds → ds ≢ [] → starts_by_digit (ds ++ tail) ≡ true
starts-append [] tail d h = absurd (h refl)
starts-append (c ∷ ds) tail d h = d.0
