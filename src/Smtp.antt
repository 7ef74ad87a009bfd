-- ===== src/Smtp.antt =====
-- What the two sides of SMTP share (crates/jmapsmtp/src/smtp_in.rs and smtp_out.rs): lines of a
-- stream, slices of a `str`, and the functions on Unicode that the standard library supplies.
use jmapsmtp.Prelude.{
  ℕ, zero, suc, Bool, true, false, Option, none, some, List, [], ◌∷◌, ◌++◌, Str, String, codes,
  ◌==◌, leb, ltb, not, ◌&&◌, ◌||◌, if◌then◌else◌, length, take, drop, prepend, trim_end_by,
  strip_prefix,
}
use jmapsmtp.Result.{Result, ok, err}
pub mod Server
pub mod Payload
pub mod Errors
pub mod Client

-- A slice of a `str` that is no boundary of its characters panics, which ends the task.
pub data Panic : Type 0 where
  panic : Panic

abbrev pub Checked : Type 0 → Type 0
Checked A = Result Panic A

-- The functions of `str` that consult the tables of Unicode. `find_whitespace` is
-- `find(char::is_whitespace)`, `debug` the text of `{:?}`.
pub record Unicode : Type 0 where
  pub to_lowercase : Str → Str
  pub to_uppercase : Str → Str
  pub trim : Str → Str
  pub trim_start : Str → Str
  pub find_whitespace : Str → Option ℕ
  pub debug : Str → Str

abbrev pub lf : ℕ
lf = 10

abbrev pub crlf : Str
crlf = 13 ∷ 10 ∷ []

-- A line of the protocol.
abbrev pub line : String → Str
line s = codes s ++ crlf

-- The lines of a stream as `read_line` and `read_until(b'\n')` take them one by one: each with its
-- line feed, the last perhaps without.
unfoldable pub lines_of : Str → List Str
lines_of [] = []
lines_of (c ∷ s) = let rest = lines_of s in if c == lf then (c ∷ []) ∷ rest else prepend c rest

-- `trim_end_matches(['\r', '\n'])`.
unfoldable pub trim_line : Str → Str
unfolding trim_end_by
trim_line = trim_end_by (λ c. c == 13 || c == lf)

-- A byte that continues a character.
abbrev pub is_continuation : ℕ → Bool
is_continuation c = leb 128 c && ltb c 192

abbrev starts_char : Str → Bool
starts_char [] = true
starts_char (c ∷ s) = not (is_continuation c)

-- `is_char_boundary` of valid UTF-8.
unfoldable pub is_char_boundary : ℕ → Str → Bool
is_char_boundary zero s = true
is_char_boundary (suc i) [] = false
is_char_boundary (suc zero) (c ∷ s) = starts_char s
is_char_boundary (suc (suc i)) (c ∷ s) = is_char_boundary (suc i) s

-- `s[..i]` and `s[i..]`.
unfoldable pub slice_to : ℕ → Str → Checked Str
unfolding is_char_boundary
slice_to i s = if is_char_boundary i s then ok (take i s) else err panic

unfoldable pub slice_from : ℕ → Str → Checked Str
unfolding is_char_boundary
slice_from i s = if is_char_boundary i s then ok (drop i s) else err panic

-- How many bytes continue a character after its first one, and the range of the next of them.
abbrev lead : ℕ → Option (ℕ × ℕ × ℕ)
lead c =
    if ltb c 128
    then some (0, 128, 191)
    else if ltb c 194
    then none
    else if ltb c 224
    then some (1, 128, 191)
    else if ltb c 240
    then some (2, if c == 224 then 160 else 128, if c == 237 then 159 else 191)
    else if ltb c 245
    then some (3, if c == 240 then 144 else 128, if c == 244 then 143 else 191)
    else none

-- The bytes of a `String`, behind a number of bytes that are still to come, the next of them in a
-- range.
utf8_from : ℕ → ℕ → ℕ → Str → Bool
utf8_from zero lo hi [] = true
utf8_from (suc n) lo hi [] = false
utf8_from (suc n) lo hi (c ∷ s) = leb lo c && leb c hi && utf8_from n 128 191 s
utf8_from zero lo hi (c ∷ s) = elim (lead c) [
  | none ↦ false
  | some (n, lo', hi') ↦ utf8_from n lo' hi' s
]

unfoldable pub is_utf8 : Str → Bool
unfolding utf8_from
is_utf8 = utf8_from 0 128 191
