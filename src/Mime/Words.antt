-- ===== src/Mime/Words.antt =====
-- crates/jmapserver/src/mime.rs: transfer encodings, and the encoded words of headers.
use jmapsmtp.Prelude.{
  ℕ, zero, suc, ◌+◌, ◌-◌, ◌*◌, ◌/◌, ◌%◌, Bool, true, false, Option, none, some, List, [], ◌∷◌, ◌++◌,
  Str, codes, ◌==◌, ◌&&◌, ◌||◌, leb, if◌then◌else◌, is_upper, is_lower, is_digit, take, length,
  text_eq, to_ascii_lowercase, split_once, replace_byte, keep_if, not,
}
use jmapsmtp.Mime.{Platform, find}
mod Bytes
pub mod Find
pub mod RoundTrip

-- A digit of `from_str_radix(_, 16)`.
unfoldable pub hex_digit : ℕ → Option ℕ
hex_digit c =
    if is_digit c
    then some (c - b'0')
    else if leb b'a' c && leb c b'f'
    then some (c - b'a' + 10)
    else if leb b'A' c && leb c b'F'
    then some (c - b'A' + 10)
    else none

-- `u8::from_str_radix` of two bytes: two digits, or a plus sign in front of one.
unfoldable pub hex_pair : ℕ → ℕ → Option ℕ
unfolding hex_digit
hex_pair a b = elim (hex_digit b) [
  | none ↦ none
  | some low ↦
      if a == b'+'
      then some low
      else elim (hex_digit a) [ none ↦ none | some high ↦ some (high * 16 + low) ]
]

-- The last two clauses of the match: a line feed ends the body behind its `=`.
unfoldable pub decode_quoted_printable : Str → Str
unfolding hex_pair
decode_quoted_printable [] = []
decode_quoted_printable (c ∷ []) = c ∷ []
decode_quoted_printable (c ∷ d ∷ []) =
    let plain = c ∷ decode_quoted_printable (d ∷ []) in
    if c == b'=' then (if d == 10 then [] else plain) else plain
decode_quoted_printable (c ∷ d ∷ e ∷ s) =
    let plain = c ∷ decode_quoted_printable (d ∷ e ∷ s) in
    let behind = decode_quoted_printable s in
    if c == b'='
    then (if d == 13 && e == 10
        then behind
        else elim (hex_pair d e) [ some b ↦ b ∷ behind | none ↦ plain ])
    else plain

-- `is_ascii_whitespace`.
abbrev is_ascii_whitespace : ℕ → Bool
is_ascii_whitespace c = c == b' ' || c == 9 || c == 10 || c == 12 || c == 13

-- A byte of `encode_word`: a space, a letter, a digit or one of `!*+-/`, or an escape.
abbrev pub is_plain : ℕ → Bool
is_plain b =
    is_digit b
    || is_lower b
    || is_upper b
    || b == b'!'
    || b == b'*'
    || b == b'+'
    || b == b'-'
    || b == b'/'

-- A digit of `{:02X}`.
abbrev pub hex_upper : ℕ → ℕ
hex_upper n = if leb n 9 then b'0' + n else b'A' + (n - 10)

unfoldable pub encode_byte : ℕ → Str
encode_byte b =
    if b == b' '
    then b'_' ∷ []
    else if is_plain b
    then b ∷ []
    else b'=' ∷ hex_upper (b / 16) ∷ hex_upper (b % 16) ∷ []

unfoldable pub encode_bytes : Str → Str
unfolding encode_byte
encode_bytes [] = []
encode_bytes (b ∷ s) = encode_byte b ++ encode_bytes s

unfoldable pub encode_word : Str → Str
unfolding encode_bytes
encode_word s = codes "=?utf-8?q?" ++ encode_bytes s ++ codes "?="

-- `splitn(3, c)`, where it has three fields.
abbrev pub splitn3 : ℕ → Str → Option (Str × Str × Str)
splitn3 c s = elim (split_once c s) [
  | none ↦ none
  | some (a, rest) ↦ elim (split_once c rest) [ none ↦ none | some (b, text) ↦ some (a, b, text) ]
]

abbrev is_known_charset : Str → Bool
is_known_charset charset =
    text_eq charset (codes "utf-8")
    || text_eq charset (codes "utf8")
    || text_eq charset (codes "us-ascii")
    || text_eq charset (codes "ascii")
    || text_eq charset (codes "iso-8859-1")
    || text_eq charset (codes "latin1")

module _ (p : Platform) where
  -- The longest prefix that decodes, among those of at most so many bytes.
  unfoldable pub decode_longest : ℕ → Str → Str
  decode_longest zero filtered = []
  decode_longest (suc end) filtered =
      let shorter = decode_longest end filtered in
      elim (p.base64 (take (suc end) filtered)) [ some v ↦ v | none ↦ shorter ]

  unfoldable pub decode_base64_lenient : Str → Str
  unfolding decode_longest
  decode_base64_lenient body =
      let filtered = keep_if (λ b. not (is_ascii_whitespace b)) body in
      elim (p.base64 filtered) [ some v ↦ v | none ↦ decode_longest (length filtered) filtered ]

  unfoldable pub decode_transfer_bytes : Str → Str → Str
  unfolding decode_quoted_printable decode_base64_lenient text_eq to_ascii_lowercase
  decode_transfer_bytes cte body =
      let encoding = to_ascii_lowercase (p.unicode.trim cte) in
      if text_eq encoding (codes "quoted-printable")
      then decode_quoted_printable body
      else if text_eq encoding (codes "base64")
      then decode_base64_lenient body
      else body

  unfoldable pub decode_transfer : Str → Str → Str
  unfolding decode_transfer_bytes
  decode_transfer cte body = p.from_utf8_lossy (decode_transfer_bytes cte body)

  abbrev word_bytes : Str → Str → Option Str
  word_bytes encoding text =
      if text_eq encoding (codes "b")
      then some (decode_base64_lenient text)
      else if text_eq encoding (codes "q")
      then some (decode_quoted_printable (replace_byte b'_' b' ' text))
      else none

  abbrev decode_fields : Str × Str × Str → Option Str
  decode_fields (charset, encoding, text) = elim (word_bytes (to_ascii_lowercase encoding) text) [
    | none ↦ none
    | some bytes ↦
        if is_known_charset (to_ascii_lowercase charset)
        then some (p.from_utf8_lossy bytes)
        else none
  ]

  unfoldable pub decode_one_word : Str → Option (Str × Str)
  unfolding find split_once text_eq to_ascii_lowercase replace_byte decode_base64_lenient
      decode_quoted_printable
  decode_one_word after = elim (find (codes "?=") after) [
    | none ↦ none
    | some (word, rest) ↦ elim (splitn3 b'?' word) [
      | none ↦ none
      | some fields ↦ elim (decode_fields fields) [ none ↦ none | some text ↦ some (text, rest) ]
    ]
  ]

  -- The loop of `decode_words`, whose rest gets shorter by two bytes at least in each round.
  unfoldable pub decode_rest : ℕ → Str → Str
  unfolding find decode_one_word
  decode_rest zero rest = rest
  decode_rest (suc fuel) rest = elim (find (codes "=?") rest) [
    | none ↦ rest
    | some (before, after) ↦ elim (decode_one_word after) [
      | none ↦ before ++ codes "=?" ++ decode_rest fuel after
      | some (text, rest') ↦ before ++ text ++ decode_rest fuel rest'
    ]
  ]

  -- The test for `=?` in front of the loop changes nothing, since the loop then stops at once.
  unfoldable pub decode_words : Str → Str
  unfolding decode_rest
  decode_words s = decode_rest (length s) s
