-- ===== src/Base58/Numerals.antt =====
-- Numerals in two bases (crates/jmapserver/src/base58.rs).
use jmapsmtp.Prelude.{
  ℕ, zero, suc, false, ◌+◌, ◌*◌, ◌/◌, ◌%◌, ◌<◌, ◌≤◌, [], ◌∷◌, Str, ◌≡◌, refl, arith, All, ◌==◌,
  Bool-cases, inl, inr,
}
use mathlib.Core.List.{reverse_aux}
use jmapsmtp.Base58.{carry_digits, add_digit}

abbrev pub IsDigit : ℕ → ℕ → Type 0
IsDigit base d = d < base

-- The number that digits stand for, least first.
unfoldable pub value : ℕ → Str → ℕ
value base [] = 0
value base (d ∷ digits) = value base digits * base + d

-- The number that digits stand for, greatest first, in front of which another stands.
unfoldable pub horner : ℕ → Str → ℕ → ℕ
horner base [] n = n
horner base (d ∷ digits) n = horner base digits (n * base + d)

-- No zeros stand at the end of the digits.
abbrev pub IsShort : ℕ → Str → Type 0
IsShort base [] = Unit
IsShort base (d ∷ digits) = (0 < value base (d ∷ digits)) × IsShort base digits

pub horner-reverse_aux :
    (base : ℕ) (digits r : Str)
    → horner base (reverse_aux digits r) 0 ≡ horner base r (value base digits)
unfolding horner value
horner-reverse_aux base [] r = refl
horner-reverse_aux base (d ∷ digits) r = horner-reverse_aux base digits (d ∷ r)

-- Two numerals without zeros at the end that stand for one number are one.
pub value-injective :
    (xs ys : Str)
    → All (IsDigit 256) xs
    → All (IsDigit 256) ys
    → IsShort 256 xs
    → IsShort 256 ys
    → value 256 xs ≡ value 256 ys
    → xs ≡ ys
unfolding value
value-injective [] [] dx dy sx sy e = refl
value-injective [] (y ∷ ys) dx dy sx sy e = ground arith
value-injective (x ∷ xs) [] dx dy sx sy e = ground arith
value-injective (x ∷ xs) (y ∷ ys) dx dy sx sy e =
    let first : x ≡ y = omega (arith, dx.0, dy.0) in
    let rest : value 256 xs ≡ value 256 ys = omega (arith, dx.0, dy.0) in
    cc (first, value-injective xs ys dx.1 dy.1 sx.1 sy.1 rest)

value-carry_digits58 :
    (fuel carry : ℕ) → carry ≤ fuel → value 58 (carry_digits 58 fuel carry) ≡ carry
unfolding value carry_digits
value-carry_digits58 zero carry h = omega arith
value-carry_digits58 (suc fuel) carry h = ground (arith, value-carry_digits58 fuel (carry / 58))

pub value-add_digit58 :
    (carry : ℕ) (digits : Str)
    → value 58 (add_digit 58 256 carry digits) ≡ value 58 digits * 256 + carry
unfolding value add_digit
value-add_digit58 carry [] = omega (arith, value-carry_digits58 carry carry)
value-add_digit58 carry (d ∷ digits) =
    omega (arith, value-add_digit58 ((d * 256 + carry) / 58) digits)

positive-carry58 :
    (fuel carry : ℕ)
    → carry ≤ suc fuel
    → (carry == 0) ≡ false
    → 0 < value 58 (carry % 58 ∷ carry_digits 58 fuel (carry / 58))
unfolding value
positive-carry58 fuel carry h e = ground (arith, value-carry_digits58 fuel (carry / 58))

IsShort-carry_digits58 : (fuel carry : ℕ) → carry ≤ fuel → IsShort 58 (carry_digits 58 fuel carry)
unfolding carry_digits
IsShort-carry_digits58 zero carry h = tt
IsShort-carry_digits58 (suc fuel) carry h = elim (Bool-cases (carry == 0)) [
  | inl e ↦ rw (carry_digits, e) tt
  | inr e ↦
      rw (carry_digits, e)
        (positive-carry58 fuel carry h e, IsShort-carry_digits58 fuel (carry / 58) (omega arith))
]

pub IsShort-add_digit58 :
    (carry : ℕ) (digits : Str) → IsShort 58 digits → IsShort 58 (add_digit 58 256 carry digits)
unfolding add_digit
IsShort-add_digit58 carry [] h = IsShort-carry_digits58 carry carry (omega arith)
IsShort-add_digit58 carry (d ∷ digits) h = (
  omega (arith, value-add_digit58 carry (d ∷ digits), h.0),
  IsShort-add_digit58 ((d * 256 + carry) / 58) digits h.1,
)

value-carry_digits256 :
    (fuel carry : ℕ) → carry ≤ fuel → value 256 (carry_digits 256 fuel carry) ≡ carry
unfolding value carry_digits
value-carry_digits256 zero carry h = omega arith
value-carry_digits256 (suc fuel) carry h = ground (arith, value-carry_digits256 fuel (carry / 256))

pub value-add_digit256 :
    (carry : ℕ) (digits : Str)
    → value 256 (add_digit 256 58 carry digits) ≡ value 256 digits * 58 + carry
unfolding value add_digit
value-add_digit256 carry [] = omega (arith, value-carry_digits256 carry carry)
value-add_digit256 carry (d ∷ digits) =
    omega (arith, value-add_digit256 ((d * 58 + carry) / 256) digits)

positive-carry256 :
    (fuel carry : ℕ)
    → carry ≤ suc fuel
    → (carry == 0) ≡ false
    → 0 < value 256 (carry % 256 ∷ carry_digits 256 fuel (carry / 256))
unfolding value
positive-carry256 fuel carry h e = ground (arith, value-carry_digits256 fuel (carry / 256))

IsShort-carry_digits256 :
    (fuel carry : ℕ) → carry ≤ fuel → IsShort 256 (carry_digits 256 fuel carry)
unfolding carry_digits
IsShort-carry_digits256 zero carry h = tt
IsShort-carry_digits256 (suc fuel) carry h = elim (Bool-cases (carry == 0)) [
  | inl e ↦ rw (carry_digits, e) tt
  | inr e ↦
      rw (carry_digits, e)
        (positive-carry256 fuel carry h e, IsShort-carry_digits256 fuel (carry / 256) (omega arith))
]

pub IsShort-add_digit256 :
    (carry : ℕ) (digits : Str) → IsShort 256 digits → IsShort 256 (add_digit 256 58 carry digits)
unfolding add_digit
IsShort-add_digit256 carry [] h = IsShort-carry_digits256 carry carry (omega arith)
IsShort-add_digit256 carry (d ∷ digits) h = (
  omega (arith, value-add_digit256 carry (d ∷ digits), h.0),
  IsShort-add_digit256 ((d * 58 + carry) / 256) digits h.1,
)

All-carry_digits :
    (base fuel carry : ℕ)
    → ((n : ℕ) → n % base < base)
    → All (IsDigit base) (carry_digits base fuel carry)
unfolding carry_digits
All-carry_digits base zero carry h = tt
All-carry_digits base (suc fuel) carry h = elim (Bool-cases (carry == 0)) [
  | inl e ↦ rw (carry_digits, e) tt
  | inr e ↦ rw (carry_digits, e) (h carry, All-carry_digits base fuel (carry / base) h)
]

pub All-add_digit :
    (base times carry : ℕ) (digits : Str)
    → ((n : ℕ) → n % base < base)
    → All (IsDigit base) (add_digit base times carry digits)
unfolding add_digit
All-add_digit base times carry [] h = All-carry_digits base carry carry h
All-add_digit base times carry (d ∷ digits) h =
    (h (d * times + carry), All-add_digit base times ((d * times + carry) / base) digits h)
