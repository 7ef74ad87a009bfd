-- ===== src/Mime/Words/Bytes.antt =====
-- The bytes of an encoded word, and what the decoder of transfer encodings makes of them
-- (crates/jmapserver/src/mime.rs).
use jmapsmtp.Prelude.{
  ℕ, ◌+◌, ◌*◌, ◌/◌, ◌%◌, ◌<◌, true, false, some, [], ◌∷◌, Str, ◌==◌, ==_iff, ◌≡◌, refl, arith, All,
  Bool-cases, inl, inr, replace_byte,
}
use jmapsmtp.Mime.Words.{
  hex_digit, hex_pair, decode_quoted_printable, is_plain, hex_upper, encode_byte, encode_bytes,
}

abbrev pub IsByte : ℕ → Type 0
IsByte b = b < 256

pub hex_digit-upper : (n : ℕ) → n < 16 → hex_digit (hex_upper n) ≡ some n
unfolding hex_digit
hex_digit-upper n h = ground arith

pub hex_upper-ne-plus : (n : ℕ) → n < 16 → (hex_upper n == b'+') ≡ false
hex_upper-ne-plus n h = ground arith

pub hex_pair-upper :
    (b : ℕ) → IsByte b → hex_pair (hex_upper (b / 16)) (hex_upper (b % 16)) ≡ some b
unfolding hex_pair
hex_pair-upper b h =
    let split : b / 16 * 16 + b % 16 ≡ b = omega arith in
    rw (
      hex_pair,
      hex_digit-upper (b % 16) (omega arith),
      hex_upper-ne-plus (b / 16) (omega arith),
      hex_digit-upper (b / 16) (omega arith),
      split,
    )

-- A byte that is no `=` stands for itself.
pub decode-plain :
    (c : ℕ) (s : Str)
    → (c == b'=') ≡ false
    → decode_quoted_printable (c ∷ s) ≡ c ∷ decode_quoted_printable s
unfolding decode_quoted_printable
decode-plain c [] h = refl
decode-plain c (d ∷ []) h = rw h refl
decode-plain c (d ∷ e ∷ s) h = rw h refl

pub decode-escape :
    (d e b : ℕ) (s : Str)
    → hex_pair d e ≡ some b
    → (d == 13) ≡ false
    → decode_quoted_printable (b'=' ∷ d ∷ e ∷ s) ≡ b ∷ decode_quoted_printable s
unfolding decode_quoted_printable
decode-escape d e b s h k = rw (h, k) refl

-- The bytes of an encoded byte: none of them is a question mark.
abbrev pub IsWordByte : ℕ → Type 0
IsWordByte c = (c == b'?') ≡ false

-- Whether a byte becomes an underscore, stays, or is escaped.
pub encode_byte-plain :
    (b : ℕ)
    → is_plain b ≡ true
    → (encode_byte b ≡ b ∷ []) × ((b == b'_') ≡ false) × ((b == b'=') ≡ false) × IsWordByte b
unfolding encode_byte
encode_byte-plain b h = (ground arith, ground arith, ground arith, ground arith)

pub encode_byte-escape :
    (b : ℕ)
    → (b == b' ') ≡ false
    → is_plain b ≡ false
    → encode_byte b ≡ b'=' ∷ hex_upper (b / 16) ∷ hex_upper (b % 16) ∷ []
unfolding encode_byte
encode_byte-escape b h k = rw (h, k)

-- A digit of an escape is none of the bytes that the decoder looks for.
pub hex_upper-IsDigit :
    (n : ℕ)
    → n < 16
    → IsWordByte (hex_upper n) × ((hex_upper n == b'_') ≡ false) × ((hex_upper n == 13) ≡ false)
hex_upper-IsDigit n h = (ground arith, ground arith, ground arith)

pub encode_bytes-IsWord : (s : Str) → All IsByte s → All IsWordByte (encode_bytes s)
unfolding encode_bytes
encode_bytes-IsWord [] h = tt
encode_bytes-IsWord (b ∷ s) h =
    let rest = encode_bytes-IsWord s h.1 in
    elim (Bool-cases (b == b' ')) [
      | inl e ↦ rw ((==_iff b b' ').0 e) (refl, rest)
      | inr e ↦ elim (Bool-cases (is_plain b)) [
        | inl p ↦ let (shape, _, _, word) = encode_byte-plain b p in rw shape (word, rest)
        | inr p ↦
            let (high, _, _) = hex_upper-IsDigit (b / 16) (omega arith) in
            let (low, _, _) = hex_upper-IsDigit (b % 16) (omega arith) in
            rw (encode_byte-escape b e p) (refl, (high, (low, rest)))
      ]
    ]

pub decode-encode :
    (s : Str) → All IsByte s → decode_quoted_printable (replace_byte b'_' b' ' (encode_bytes s)) ≡ s
unfolding encode_bytes replace_byte
decode-encode [] h = unfold decode_quoted_printable in refl
decode-encode (b ∷ s) h =
    let rest = decode-encode s h.1 in
    elim (Bool-cases (b == b' ')) [
      | inl e ↦
          rw ((==_iff b b' ').0 e)
            (rw (decode-plain b' ' (replace_byte b'_' b' ' (encode_bytes s)) refl, rest))
      | inr e ↦ elim (Bool-cases (is_plain b)) [
        | inl p ↦
            let (shape, under, eq, _) = encode_byte-plain b p in
            rw (shape, under)
              (rw (decode-plain b (replace_byte b'_' b' ' (encode_bytes s)) eq, rest))
        | inr p ↦
            let (_, high, cr) = hex_upper-IsDigit (b / 16) (omega arith) in
            let (_, low, _) = hex_upper-IsDigit (b % 16) (omega arith) in
            rw (encode_byte-escape b e p, high, low)
              (rw (
                decode-escape (hex_upper (b / 16)) (hex_upper (b % 16)) b
                    (replace_byte b'_' b' ' (encode_bytes s)) (hex_pair-upper b h.0) cr,
                rest,
              ))
      ]
    ]
