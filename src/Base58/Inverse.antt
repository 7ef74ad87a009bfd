-- ===== src/Base58/Inverse.antt =====
-- What is decoded is encoded as it was (crates/jmapserver/src/base58.rs).
use jmapsmtp.Prelude.{
  ℕ, zero, suc, ◌<◌, false, none, some, [], ◌∷◌, ◌++◌, Str, ◌≡◌, refl, sym, ap, ◌∙◌, arith, All,
  ◌==◌, ==_iff, Bool-cases, Option-cases, inl, inr,
}
use mathlib.Core.List.{reverse, reverse_aux, reverse-reverse}
use jmapsmtp.Base58.{
  alphabet, count_leading, skip_leading, repeat, add_digit, carry_digits, digits_of, position,
  bytes_of, char_at, chars_of, encode, decode,
}
use jmapsmtp.Base58.Numerals.{IsDigit, value, horner, IsShort, horner-reverse_aux}
use jmapsmtp.Base58.Positions.{get_elem-position, position-bound}
use jmapsmtp.Base58.RoundTrip.{
  fold_digits, IsLed, value-digits_of, IsShort-digits_of, All-digits_of, value-fold_digits,
  IsShort-fold_digits, All-fold_digits, count_leading-repeat, repeat-leading, All-reverse_aux,
}

-- Two numerals in base 58 without zeros at the end that stand for one number are one.
value-injective58 :
    (xs ys : Str)
    → All (IsDigit 58) xs
    → All (IsDigit 58) ys
    → IsShort 58 xs
    → IsShort 58 ys
    → value 58 xs ≡ value 58 ys
    → xs ≡ ys
unfolding value
value-injective58 [] [] dx dy sx sy e = refl
value-injective58 [] (y ∷ ys) dx dy sx sy e = ground arith
value-injective58 (x ∷ xs) [] dx dy sx sy e = ground arith
value-injective58 (x ∷ xs) (y ∷ ys) dx dy sx sy e =
    let first : x ≡ y = omega (arith, dx.0, dy.0) in
    let rest : value 58 xs ≡ value 58 ys = omega (arith, dx.0, dy.0) in
    cc (first, value-injective58 xs ys dx.1 dy.1 sx.1 sy.1 rest)

IsShort-reverse_aux58 : (s r : Str) → IsShort 58 r → 0 < value 58 r → IsShort 58 (reverse_aux s r)
unfolding value
IsShort-reverse_aux58 [] r h k = h
IsShort-reverse_aux58 (x ∷ s) r h k =
    IsShort-reverse_aux58 s (x ∷ r) (omega (arith, k), h) (omega (arith, k))

IsShort-reverse58 : (s : Str) → IsLed s → IsShort 58 (reverse s)
unfolding value
IsShort-reverse58 [] h = tt
IsShort-reverse58 (x ∷ s) h =
    IsShort-reverse_aux58 s (x ∷ []) (omega (arith, h), tt) (omega (arith, h))

IsLed-reverse_aux256 :
    (d : ℕ) (digits r : Str) → IsShort 256 (d ∷ digits) → IsLed (reverse_aux digits (d ∷ r))
unfolding value
IsLed-reverse_aux256 d [] r h = omega (arith, h.0)
IsLed-reverse_aux256 d (e ∷ digits) r h = IsLed-reverse_aux256 e digits (d ∷ r) h.1

IsLed-reverse256 : (bytes : Str) → IsShort 256 bytes → IsLed (reverse bytes)
IsLed-reverse256 [] h = tt
IsLed-reverse256 (d ∷ bytes) h = IsLed-reverse_aux256 d bytes [] h

-- A text that is read is the characters of digits, and its bytes are theirs.
bytes_of-some :
    (s acc out : Str)
    → bytes_of s acc ≡ some out
    → (digits : Str) × (chars_of digits ≡ s)
      × All (IsDigit 58) digits
      × (fold_digits digits acc ≡ out)
unfolding bytes_of chars_of fold_digits char_at
bytes_of-some [] acc out h = ([], refl, tt, cc)
bytes_of-some (c ∷ s) acc out h = elim (Option-cases (position c alphabet)) [
  | inl e ↦ let nothing : none ≡ some out = rw (bytes_of, e) at h in cc
  | inr (i, e) ↦
      let (digits, same, below, folded) =
        bytes_of-some s (add_digit 256 58 i acc) out (rw (bytes_of, e) at h) in
      let found : char_at i ≡ c = rw (char_at, get_elem-position c alphabet i e) refl in
      (i ∷ digits, cc (found, same), (position-bound c alphabet i e, below), folded)
]

-- The first is another character.
abbrev IsOther : ℕ → Str → Type 0
IsOther x [] = Unit
IsOther x (c ∷ s) = (c == x) ≡ false

IsOther-skip_leading : (x : ℕ) (s : Str) → IsOther x (skip_leading x s)
unfolding skip_leading
IsOther-skip_leading x [] = tt
IsOther-skip_leading x (b ∷ s) = elim (Bool-cases (b == x)) [
  | inl e ↦ rw (skip_leading, e) (IsOther-skip_leading x s)
  | inr e ↦ rw (skip_leading, e) e
]

-- Digits whose first character is not `1` do not start with zero.
chars_of-IsLed : (digits : Str) → IsOther b'1' (chars_of digits) → IsLed digits
unfolding chars_of char_at
chars_of-IsLed [] h = tt
chars_of-IsLed (zero ∷ digits) h = cc
chars_of-IsLed (suc d ∷ digits) h = omega arith

count_leading-IsLed : (s : Str) → IsLed s → count_leading 0 s ≡ 0
unfolding count_leading
count_leading-IsLed [] h = refl
count_leading-IsLed (b ∷ s) h = ground (arith, ==_iff b 0)

digits_of-zeros : (n : ℕ) (s : Str) → digits_of (repeat n 0 ++ s) [] ≡ digits_of s []
unfolding digits_of repeat add_digit carry_digits
digits_of-zeros zero s = refl
digits_of-zeros (suc n) s = digits_of-zeros n s

-- The digits that bytes of digits have are those digits.
digits_of-fold_digits :
    (digits : Str)
    → All (IsDigit 58) digits
    → IsLed digits
    → digits_of (reverse (fold_digits digits [])) [] ≡ reverse digits
unfolding value horner
digits_of-fold_digits digits h led =
    let bytes = fold_digits digits [] in
    let one_number : value 58 (digits_of (reverse bytes) []) ≡ value 58 (reverse digits) =
      value-digits_of (reverse bytes) []
      ∙ horner-reverse_aux 256 bytes []
      ∙ value-fold_digits digits []
      ∙ sym (ap (λ t. horner 58 t 0) (reverse-reverse digits))
      ∙ horner-reverse_aux 58 (reverse digits) [] in
    value-injective58 (digits_of (reverse bytes) []) (reverse digits)
      (All-digits_of (reverse bytes) [] tt) (All-reverse_aux 58 digits [] h tt)
      (IsShort-digits_of (reverse bytes) [] tt) (IsShort-reverse58 digits led) one_number

encode-zeros :
    (n : ℕ) (digits : Str)
    → All (IsDigit 58) digits
    → IsLed digits
    → encode (repeat n 0 ++ reverse (fold_digits digits [])) ≡ repeat n b'1' ++ chars_of digits
unfolding encode
encode-zeros n digits h led =
    let bytes = fold_digits digits [] in
    let none_in_front = count_leading-repeat 0 n (reverse bytes) (
      count_leading-IsLed (reverse bytes)
        (IsLed-reverse256 bytes (IsShort-fold_digits digits [] tt))) in
    rw
      (
        encode,
        none_in_front,
        digits_of-zeros n (reverse bytes),
        digits_of-fold_digits digits h led,
        reverse-reverse digits,
      )
      refl

-- A text that is decoded is the encoding of its bytes.
pub encode-decode : (s out : Str) → decode s ≡ some out → encode out ≡ s
unfolding decode
encode-decode s out h = elim (Option-cases (bytes_of (skip_leading b'1' s) [])) [
  | inl e ↦ let nothing : none ≡ some out = rw (decode, e) at h in cc
  | inr (bytes, e) ↦
      let n = count_leading b'1' s in
      let (digits, same, below, folded) = bytes_of-some (skip_leading b'1' s) [] bytes e in
      let led = chars_of-IsLed digits (rw (same) (IsOther-skip_leading b'1' s)) in
      let behind : some (repeat n 0 ++ reverse bytes) ≡ some out = rw (decode, e) at h in
      let given : repeat n 0 ++ reverse (fold_digits digits []) ≡ out = cc (behind, folded) in
      ap encode (sym given)
      ∙ encode-zeros n digits below led
      ∙ ap (λ t. repeat n b'1' ++ t) same
      ∙ repeat-leading b'1' s
]

All-repeat : (n : ℕ) (s : Str) → All (IsDigit 256) s → All (IsDigit 256) (repeat n 0 ++ s)
unfolding repeat
All-repeat zero s h = h
All-repeat (suc n) s h = (omega arith, All-repeat n s h)

-- What is decoded are bytes.
pub decode-IsDigit : (s out : Str) → decode s ≡ some out → All (IsDigit 256) out
unfolding decode
decode-IsDigit s out h = elim (Option-cases (bytes_of (skip_leading b'1' s) [])) [
  | inl e ↦ let nothing : none ≡ some out = rw (decode, e) at h in cc
  | inr (bytes, e) ↦
      let n = count_leading b'1' s in
      let (digits, same, below, folded) = bytes_of-some (skip_leading b'1' s) [] bytes e in
      let behind : some (repeat n 0 ++ reverse bytes) ≡ some out = rw (decode, e) at h in
      let given : repeat n 0 ++ reverse (fold_digits digits []) ≡ out = cc (behind, folded) in
      rw (← given) (
        All-repeat n (reverse (fold_digits digits []))
          (All-reverse_aux 256 (fold_digits digits []) [] (All-fold_digits digits [] tt) tt))
]
