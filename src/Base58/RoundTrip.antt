-- ===== src/Base58/RoundTrip.antt =====
-- What is encoded is decoded (crates/jmapserver/src/base58.rs).
use jmapsmtp.Prelude.{
  ℕ, zero, suc, ◌%◌, ◌<◌, true, false, some, [], ◌∷◌, ◌++◌, Str, ◌≡◌, refl, sym, ap, ◌∙◌, arith,
  All, ◌==◌, ==_iff, Bool-cases, inl, inr,
}
use mathlib.Core.List.{reverse, reverse_aux, reverse-reverse}
use jmapsmtp.Base58.{
  alphabet, count_leading, skip_leading, repeat, add_digit, digits_of, position, bytes_of, char_at,
  chars_of, encode, decode,
}
use jmapsmtp.Base58.Positions.{checked, position-checked}
use jmapsmtp.Base58.Numerals.{
  IsDigit, value, horner, IsShort, horner-reverse_aux, value-injective, value-add_digit58,
  value-add_digit256, IsShort-add_digit58, IsShort-add_digit256, All-add_digit,
}

-- The first is not zero.
abbrev pub IsLed : Str → Type 0
IsLed [] = Unit
IsLed (d ∷ s) = 0 < d

-- The digits of a text of bytes.
pub value-digits_of :
    (bytes digits : Str) → value 58 (digits_of bytes digits) ≡ horner 256 bytes (value 58 digits)
unfolding digits_of horner
value-digits_of [] digits = refl
value-digits_of (b ∷ bytes) digits =
    value-digits_of bytes (add_digit 58 256 b digits)
    ∙ ap (horner 256 bytes) (value-add_digit58 b digits)

pub IsShort-digits_of :
    (bytes digits : Str) → IsShort 58 digits → IsShort 58 (digits_of bytes digits)
unfolding digits_of
IsShort-digits_of [] digits h = h
IsShort-digits_of (b ∷ bytes) digits h =
    IsShort-digits_of bytes (add_digit 58 256 b digits) (IsShort-add_digit58 b digits h)

mod_bound58 : (n : ℕ) → n % 58 < 58
mod_bound58 n = omega arith

mod_bound256 : (n : ℕ) → n % 256 < 256
mod_bound256 n = omega arith

pub All-digits_of :
    (bytes digits : Str) → All (IsDigit 58) digits → All (IsDigit 58) (digits_of bytes digits)
unfolding digits_of
All-digits_of [] digits h = h
All-digits_of (b ∷ bytes) digits h =
    All-digits_of bytes (add_digit 58 256 b digits) (All-add_digit 58 256 b digits mod_bound58)

-- The bytes of a text of digits.
unfoldable pub fold_digits : Str → Str → Str
fold_digits [] bytes = bytes
fold_digits (d ∷ s) bytes = fold_digits s (add_digit 256 58 d bytes)

pub value-fold_digits :
    (s bytes : Str) → value 256 (fold_digits s bytes) ≡ horner 58 s (value 256 bytes)
unfolding fold_digits horner
value-fold_digits [] bytes = refl
value-fold_digits (d ∷ s) bytes =
    value-fold_digits s (add_digit 256 58 d bytes) ∙ ap (horner 58 s) (value-add_digit256 d bytes)

pub IsShort-fold_digits : (s bytes : Str) → IsShort 256 bytes → IsShort 256 (fold_digits s bytes)
unfolding fold_digits
IsShort-fold_digits [] bytes h = h
IsShort-fold_digits (d ∷ s) bytes h =
    IsShort-fold_digits s (add_digit 256 58 d bytes) (IsShort-add_digit256 d bytes h)

pub All-fold_digits :
    (s bytes : Str) → All (IsDigit 256) bytes → All (IsDigit 256) (fold_digits s bytes)
unfolding fold_digits
All-fold_digits [] bytes h = h
All-fold_digits (d ∷ s) bytes h =
    All-fold_digits s (add_digit 256 58 d bytes) (All-add_digit 256 58 d bytes mod_bound256)

-- Each digit has a character of its own, and none but zero has `1`.
checked_all : checked char_at alphabet 58 ≡ true
unfolding checked char_at position
checked_all = refl

bytes_of-chars_of :
    (s bytes : Str) → All (IsDigit 58) s → bytes_of (chars_of s) bytes ≡ some (fold_digits s bytes)
unfolding bytes_of chars_of fold_digits
bytes_of-chars_of [] bytes h = refl
bytes_of-chars_of (d ∷ s) bytes h =
    rw (bytes_of, position-checked char_at alphabet 58 d checked_all h.0)
      (bytes_of-chars_of s (add_digit 256 58 d bytes) h.1)

-- Leading characters.
pub count_leading-repeat :
    (x n : ℕ) (s : Str) → count_leading x s ≡ 0 → count_leading x (repeat n x ++ s) ≡ n
unfolding count_leading repeat
count_leading-repeat x zero s h = h
count_leading-repeat x (suc n) s h = ground (arith, ==_iff x x, count_leading-repeat x n s)

skip_leading-repeat :
    (x n : ℕ) (s : Str) → skip_leading x s ≡ s → skip_leading x (repeat n x ++ s) ≡ s
unfolding skip_leading repeat
skip_leading-repeat x zero s h = h
skip_leading-repeat x (suc n) s h = ground (arith, ==_iff x x, skip_leading-repeat x n s h)

pub repeat-leading : (x : ℕ) (s : Str) → repeat (count_leading x s) x ++ skip_leading x s ≡ s
unfolding count_leading skip_leading repeat
repeat-leading x [] = refl
repeat-leading x (b ∷ s) = elim (Bool-cases (b == x)) [
  | inl e ↦
      let same : b ≡ x = ground (arith, ==_iff b x) in
      rw (count_leading, skip_leading, e, same) (ap (λ t. x ∷ t) (repeat-leading x s))
  | inr e ↦ rw (count_leading, skip_leading, e) refl
]

horner-skip : (s : Str) → horner 256 (skip_leading 0 s) 0 ≡ horner 256 s 0
unfolding horner skip_leading
horner-skip [] = refl
horner-skip (b ∷ s) = elim (Bool-cases (b == 0)) [
  | inl e ↦
      let same : b ≡ 0 = ground (arith, ==_iff b 0) in rw (skip_leading, e, same) (horner-skip s)
  | inr e ↦ rw (skip_leading, e) refl
]

IsLed-skip : (s : Str) → IsLed (skip_leading 0 s)
unfolding skip_leading
IsLed-skip [] = tt
IsLed-skip (b ∷ s) = elim (Bool-cases (b == 0)) [
  | inl e ↦ rw (skip_leading, e) (IsLed-skip s)
  | inr e ↦ rw (skip_leading, e) (ground (arith, ==_iff b 0))
]

one_is_zero : position b'1' alphabet ≡ some 0
unfolding position
one_is_zero = refl

one-free : (d : ℕ) → 0 < d → d < 58 → (char_at d == b'1') ≡ false
one-free d h k = elim (Bool-cases (char_at d == b'1')) [
  | inr e ↦ e
  | inl e ↦
      let same : char_at d ≡ b'1' = ground (arith, ==_iff (char_at d) b'1') in
      let zero_is : some 0 ≡ some d =
        sym one_is_zero ∙ rw (same) at (position-checked char_at alphabet 58 d checked_all k) in
      ground arith
]

-- The characters of digits whose first is not zero do not start with `1`.
chars_of-free :
    (s : Str)
    → IsLed s
    → All (IsDigit 58) s
    → (count_leading b'1' (chars_of s) ≡ 0) × (skip_leading b'1' (chars_of s) ≡ chars_of s)
unfolding chars_of count_leading skip_leading
chars_of-free [] h k = (refl, refl)
chars_of-free (d ∷ s) h k =
    let free = one-free d h k.0 in rw (count_leading, skip_leading, free) (refl, refl)

pub All-reverse_aux :
    (base : ℕ) (s r : Str)
    → All (IsDigit base) s
    → All (IsDigit base) r
    → All (IsDigit base) (reverse_aux s r)
All-reverse_aux base [] r h k = k
All-reverse_aux base (d ∷ s) r h k = All-reverse_aux base s (d ∷ r) h.1 (h.0, k)

-- The greatest digit of a short numeral is not zero.
IsLed-reverse_aux :
    (d : ℕ) (digits r : Str) → IsShort 58 (d ∷ digits) → IsLed (reverse_aux digits (d ∷ r))
unfolding value
IsLed-reverse_aux d [] r h = omega (arith, h.0)
IsLed-reverse_aux d (e ∷ digits) r h = IsLed-reverse_aux e digits (d ∷ r) h.1

IsLed-reverse : (digits : Str) → IsShort 58 digits → IsLed (reverse digits)
IsLed-reverse [] h = tt
IsLed-reverse (d ∷ digits) h = IsLed-reverse_aux d digits [] h

IsShort-reverse_aux : (s r : Str) → IsShort 256 r → 0 < value 256 r → IsShort 256 (reverse_aux s r)
unfolding value
IsShort-reverse_aux [] r h k = h
IsShort-reverse_aux (x ∷ s) r h k =
    IsShort-reverse_aux s (x ∷ r) (omega (arith, k), h) (omega (arith, k))

IsShort-reverse : (s : Str) → IsLed s → IsShort 256 (reverse s)
unfolding value
IsShort-reverse [] h = tt
IsShort-reverse (x ∷ s) h = IsShort-reverse_aux s (x ∷ []) (omega (arith, h), tt) (omega (arith, h))

All-skip : (bytes : Str) → All (IsDigit 256) bytes → All (IsDigit 256) (skip_leading 0 bytes)
unfolding skip_leading
All-skip [] h = tt
All-skip (b ∷ bytes) h = elim (Bool-cases (b == 0)) [
  | inl e ↦ rw (skip_leading, e) (All-skip bytes h.1)
  | inr e ↦ rw (skip_leading, e) h
]

-- The bytes that the digits of a text are decoded to are the text behind its zeros.
fold_digits-digits_of :
    (bytes : Str)
    → All (IsDigit 256) bytes
    → reverse (fold_digits (reverse (digits_of bytes [])) []) ≡ skip_leading 0 bytes
unfolding value horner
fold_digits-digits_of bytes h =
    let digits = digits_of bytes [] in
    let stripped = skip_leading 0 bytes in
    let one_number : value 256 (fold_digits (reverse digits) []) ≡ value 256 (reverse stripped) =
      value-fold_digits (reverse digits) []
      ∙ horner-reverse_aux 58 digits []
      ∙ value-digits_of bytes []
      ∙ sym (horner-skip bytes)
      ∙ sym (ap (λ t. horner 256 t 0) (reverse-reverse stripped))
      ∙ horner-reverse_aux 256 (reverse stripped) [] in
    ap reverse (
      value-injective (fold_digits (reverse digits) []) (reverse stripped)
        (All-fold_digits (reverse digits) [] tt)
        (All-reverse_aux 256 stripped [] (All-skip bytes h) tt)
        (IsShort-fold_digits (reverse digits) [] tt) (IsShort-reverse stripped (IsLed-skip bytes))
        one_number)
    ∙ reverse-reverse stripped

-- Any bytes, with zeros in front or none, are decoded from their encoding as they were.
pub decode-encode : (bytes : Str) → All (IsDigit 256) bytes → decode (encode bytes) ≡ some bytes
unfolding decode encode
decode-encode bytes h =
    let s = reverse (digits_of bytes []) in
    let short = IsShort-digits_of bytes [] tt in
    let below = All-reverse_aux 58 (digits_of bytes []) [] (All-digits_of bytes [] tt) tt in
    let free = chars_of-free s (IsLed-reverse (digits_of bytes []) short) below in
    let n = count_leading 0 bytes in
    rw
      (
        decode,
        encode,
        count_leading-repeat b'1' n (chars_of s) free.0,
        skip_leading-repeat b'1' n (chars_of s) free.1,
        bytes_of-chars_of s [] below,
      )
      (ap (λ t. some (repeat n 0 ++ t)) (fold_digits-digits_of bytes h)
        ∙ ap some (repeat-leading 0 bytes))
