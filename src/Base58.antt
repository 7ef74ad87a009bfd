-- ===== src/Base58.antt =====
-- crates/jmapserver/src/base58.rs. A digit and a carry stay below 2 ^ 16 in both loops, so the `u32` of
-- the source does not wrap and its casts to `u8` keep the digit.
use jmapsmtp.Prelude.{
  ℕ, zero, suc, ◌+◌, ◌*◌, ◌/◌, ◌%◌, Bool, Option, none, some, List, [], ◌∷◌, ◌++◌, Str, codes, ◌==◌,
  if◌then◌else◌, get_elem?,
}
use mathlib.Core.List.{reverse}
pub mod Positions
pub mod Numerals
pub mod RoundTrip
pub mod Inverse

abbrev pub alphabet : Str
alphabet = codes "123456789ABCDEFGHJKLMNPQRSTUVWXYZabcdefghijkmnopqrstuvwxyz"

-- How many of the first bytes are `x`, and what follows them.
unfoldable pub count_leading : ℕ → Str → ℕ
count_leading x [] = 0
count_leading x (b ∷ s) = let rest = count_leading x s in if b == x then suc rest else 0

unfoldable pub skip_leading : ℕ → Str → Str
skip_leading x [] = []
skip_leading x (b ∷ s) = let rest = skip_leading x s in if b == x then rest else b ∷ s

unfoldable pub repeat : ℕ → ℕ → Str
repeat zero x = []
repeat (suc n) x = x ∷ repeat n x

-- The loop over a carry: fuel for the carry itself, which each round makes smaller.
unfoldable pub carry_digits : ℕ → ℕ → ℕ → Str
carry_digits base zero carry = []
carry_digits base (suc fuel) carry =
    let rest = carry_digits base fuel (carry / base) in
    if carry == 0 then [] else carry % base ∷ rest

-- The digits, least first, times a number and plus a carry.
unfoldable pub add_digit : ℕ → ℕ → ℕ → Str → Str
unfolding carry_digits
add_digit base times carry [] = carry_digits base carry carry
add_digit base times carry (d ∷ digits) =
    let value = d * times + carry in value % base ∷ add_digit base times (value / base) digits

unfoldable pub digits_of : Str → Str → Str
unfolding add_digit
digits_of [] digits = digits
digits_of (byte ∷ bytes) digits = digits_of bytes (add_digit 58 256 byte digits)

unfoldable pub position : ℕ → Str → Option ℕ
position c [] = none
position c (a ∷ s) = elim (position c s) [
  | some i ↦ if c == a then some 0 else some (suc i)
  | none ↦ if c == a then some 0 else none
]

unfoldable pub bytes_of : Str → Str → Option Str
unfolding add_digit position
bytes_of [] bytes = some bytes
bytes_of (c ∷ s) bytes = elim (position c alphabet) [
  | none ↦ none
  | some i ↦ bytes_of s (add_digit 256 58 i bytes)
]

abbrev pub char_or : Option ℕ → ℕ
char_or none = 0
char_or (some c) = c

-- `ALPHABET[d]`; a digit is below 58.
unfoldable pub char_at : ℕ → ℕ
char_at d = char_or (get_elem? alphabet d)

unfoldable pub chars_of : Str → Str
unfolding char_at
chars_of [] = []
chars_of (d ∷ digits) = char_at d ∷ chars_of digits

unfoldable pub encode : Str → Str
unfolding count_leading repeat digits_of chars_of
encode bytes = repeat (count_leading 0 bytes) b'1' ++ chars_of (reverse (digits_of bytes []))

abbrev behind_zeros : ℕ → Option Str → Option Str
behind_zeros n none = none
behind_zeros n (some bytes) = some (repeat n 0 ++ reverse bytes)

unfoldable pub decode : Str → Option Str
unfolding count_leading skip_leading bytes_of
decode s = behind_zeros (count_leading b'1' s) (bytes_of (skip_leading b'1' s) [])
