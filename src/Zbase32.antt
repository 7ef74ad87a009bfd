-- ===== src/Zbase32.antt =====
-- crates/jmapserver/src/zbase32.rs. `value` is a `u32`, and a shift to the left drops its upper bits.
use jmapsmtp.Prelude.{
  ℕ, zero, suc, ◌+◌, ◌*◌, ◌-◌, ◌/◌, ◌%◌, ◌^◌, Bool, Option, none, some, List, [], ◌∷◌, ◌++◌, Str,
  codes, ◌==◌, leb, ltb, if◌then◌else◌, get_elem?, length,
}
use jmapsmtp.Base58.{position, char_or}
pub mod RoundTrip

abbrev pub alphabet : Str
alphabet = codes "ybndrfg8ejkmcpqxot1uwisza345h769"

-- `ALPHABET[(value >> shift) & 31]`.
unfoldable pub symbol : ℕ → ℕ → ℕ
symbol value shift = char_or (get_elem? alphabet (value / 2 ^ shift % 32))

-- The inner loop: symbols as long as there are five bits. The bits are fuel enough.
unfoldable pub emit : ℕ → ℕ → ℕ → Str
unfolding symbol
emit zero bits value = []
emit (suc fuel) bits value =
    let rest = emit fuel (bits - 5) value in
    if leb 5 bits then symbol value (bits - 5) ∷ rest else []

-- The last symbol holds the bits that are left, in front of zeros.
abbrev pub padding : ℕ → ℕ → Str
padding bits value =
    if bits == 0
    then []
    else char_or (get_elem? alphabet (value * 2 ^ (5 - bits) % 2 ^ 32 % 32)) ∷ []

unfoldable pub encode_from : Str → ℕ → ℕ → Str
unfolding emit
encode_from [] bits value = padding bits value
encode_from (b ∷ bytes) bits value =
    let value' = value * 256 % 2 ^ 32 + b in
    emit (bits + 8) (bits + 8) value' ++ encode_from bytes ((bits + 8) % 5) value'

unfoldable pub encode : Str → Str
unfolding encode_from
encode bytes = encode_from bytes 0 0

abbrev and_byte : ℕ → Option Str → Option Str
and_byte b none = none
and_byte b (some s) = some (b ∷ s)

-- `room` is how many bytes are wanted still.
unfoldable pub decode_from : Str → ℕ → ℕ → ℕ → Option Str
unfolding position
decode_from [] bits value room = if room == 0 then some [] else none
decode_from (c ∷ s) bits value room = elim (position c alphabet) [
  | none ↦ none
  | some index ↦
      let value' = value * 32 % 2 ^ 32 + index in
      if leb 8 (bits + 5)
      then (if room == 0
          then decode_from s (bits - 3) value' 0
          else and_byte (value' / 2 ^ (bits - 3) % 256)
              (decode_from s (bits - 3) value' (room - 1)))
      else decode_from s (bits + 5) value' room
]

-- Exactly `byte_len` bytes.
unfoldable pub decode : Str → ℕ → Option Str
unfolding decode_from
decode s byte_len = decode_from s 0 0 byte_len
