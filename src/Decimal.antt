-- ===== src/Decimal.antt =====
-- `to_string` and `parse` of an `i64`, by which state counters travel as strings
-- (crates/jmapserver/src/methods/mod.rs and the callers of `parse_since`).
use jmapsmtp.Prelude.{
  ℕ, zero, suc, ◌+◌, ◌-◌, ◌*◌, ◌/◌, ◌%◌, ◌^◌, ◌<◌, ◌≡◌, true, Option, none, some, Str, [], ◌∷◌,
  ◌++◌, arith, ltb, if◌then◌else◌, is_digit, Bool-cases, inl, inr,
}

-- The digits of a number that is not negative. Fuel above the number is enough, since each round
-- divides it by ten.
print_from : ℕ → ℕ → Str
print_from zero n = []
print_from (suc f) n =
    let rest = print_from f (n / 10) in
    if ltb n 10 then (b'0' + n) ∷ [] else rest ++ (b'0' + n % 10) ∷ []

unfoldable pub print : ℕ → Str
unfolding print_from
print n = print_from (suc n) n

-- `i64::to_string`, of a bit pattern.
unfoldable pub print_i64 : ℕ → Str
print_i64 n = if ltb n (2 ^ 63) then print n else b'-' ∷ print (2 ^ 64 - n)

-- The value of digits behind the number read so far.
unfoldable pub digits : ℕ → Str → Option ℕ
digits n [] = some n
digits n (c ∷ s) = let rest = digits (n * 10 + (c - b'0')) s in if is_digit c then rest else none

-- At least one digit.
unfoldable pub parse_digits : Str → Option ℕ
unfolding digits
parse_digits [] = none
parse_digits (c ∷ s) = digits 0 (c ∷ s)

digits-append : (s t : Str) (n m : ℕ) → digits n s ≡ some m → digits n (s ++ t) ≡ digits m t
unfolding digits
digits-append [] t n m h = ground arith
digits-append (c ∷ s) t n m h = ground (arith, digits-append s t (n * 10 + (c - b'0')) m)

digits-print_from : (f n : ℕ) → n < f → digits 0 (print_from f n) ≡ some n
unfolding print_from digits
digits-print_from zero n h = absurd (omega arith)
digits-print_from (suc f) n h = elim (Bool-cases (ltb n 10)) [
  | inl small ↦ rw small (ground arith)
  | inr big ↦
      let ih = digits-print_from f (n / 10) (ground arith) in
      rw (big, digits-append (print_from f (n / 10)) ((b'0' + n % 10) ∷ []) 0 (n / 10) ih)
        (ground arith)
]

print_from-ne-nil :
    (f n : ℕ) → (c : ℕ) × (s : Str) × (print_from (suc f) n ≡ c ∷ s) × (is_digit c ≡ true)
unfolding print_from
print_from-ne-nil zero n = elim (Bool-cases (ltb n 10)) [
  | inl small ↦ (b'0' + n, [], rw small, ground arith)
  | inr big ↦ (b'0' + n % 10, [], rw big, ground arith)
]
print_from-ne-nil (suc f) n = elim (Bool-cases (ltb n 10)) [
  | inl small ↦ (b'0' + n, [], rw small, ground arith)
  | inr big ↦
      let (c, s, e, d) = print_from-ne-nil f (n / 10) in
      (c, s ++ (b'0' + n % 10) ∷ [], rw (big, e), d)
]

-- Every number is read back from its print.
pub parse_digits-print : (n : ℕ) → parse_digits (print n) ≡ some n
unfolding parse_digits print
parse_digits-print n =
    let (c, s, e, d) = print_from-ne-nil n n in
    rw (e, parse_digits) (rw e at (digits-print_from (suc n) n (omega arith)))

-- The first byte of a print is no sign.
pub print-head : (n : ℕ) → (c : ℕ) × (s : Str) × (print n ≡ c ∷ s) × (is_digit c ≡ true)
unfolding print
print-head n = print_from-ne-nil n n

pub print_i64_lem : (n : ℕ) → n < 2 ^ 63 → print_i64 n ≡ print n
unfolding print_i64
print_i64_lem n h = ground arith
