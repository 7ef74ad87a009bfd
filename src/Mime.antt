-- ===== src/Mime.antt =====
-- crates/jmapserver/src/mime.rs: the header block of a message, the parts of a multipart body and the
-- media types. A `&[u8]` or `String` is the list of its bytes. What the standard library and the
-- crates of base64 and time supply is the record `Platform`.
use jmapsmtp.Prelude.{
  ℕ, zero, suc, Bool, true, false, Option, none, some, List, [], ◌∷◌, ◌++◌, Str, codes, ◌==◌, not,
  if◌then◌else◌, is_empty, strip_prefix, starts_with, eq_ignore_ascii_case, to_ascii_lowercase,
  split, split_once, length,
}
use jmapsmtp.Map
use jmapsmtp.Map.{Map}
use jmapsmtp.Keys.{text_ord}
use jmapsmtp.Smtp.{Unicode}
use jmapsmtp.Smtp.Payload.{strip_last}
pub mod Words
pub mod Text
pub mod Address
pub mod Build
pub mod Message

-- `rfc2822` parses a date and prints it for the store; `base64` is the decoder of the standard
-- alphabet.
pub record Platform : Type 0 where
  pub unicode : Unicode
  pub from_utf8_lossy : Str → Str
  pub split_whitespace : Str → List Str
  pub base64 : Str → Option Str
  pub rfc2822 : Str → Option Str

-- `find`, and the slices in front of the needle and behind it.
unfoldable pub find : Str → Str → Option (Str × Str)
unfolding strip_prefix
find needle [] = elim (strip_prefix needle []) [ some rest ↦ some ([], rest) | none ↦ none ]
find needle (c ∷ s) =
    let later = find needle s in
    elim (strip_prefix needle (c ∷ s)) [
      | some rest ↦ some ([], rest)
      | none ↦ elim later [ none ↦ none | some (before, after) ↦ some (c ∷ before, after) ]
    ]

-- `Headers`: the names and values in the order in which they came.
abbrev pub Headers : Type 0
Headers = List (Str × Str)

-- The first value of a name.
unfoldable pub get : Str → Headers → Str
unfolding eq_ignore_ascii_case
get name [] = []
get name ((k, v) ∷ entries) = if eq_ignore_ascii_case k name then v else get name entries

unfoldable pub split_head_body : Str → Option (Str × Str)
unfolding find
split_head_body bytes = elim (find (13 ∷ 10 ∷ 13 ∷ 10 ∷ []) bytes) [
  | some (head, body) ↦ some (head ++ 13 ∷ 10 ∷ [], body)
  | none ↦ elim (find (10 ∷ 10 ∷ []) bytes) [
    | some (head, body) ↦ some (head ++ 10 ∷ [], body)
    | none ↦ if is_empty bytes then none else some (bytes, [])
  ]
]

abbrev pub is_wsp : ℕ → Bool
is_wsp c = if c == b' ' then true else c == 9

abbrev is_folded : Str → Bool
is_folded [] = false
is_folded (c ∷ s) = is_wsp c

-- `last_mut`, with a text appended to the value.
unfoldable pub extend_last : Str → Headers → Headers
extend_last more [] = []
extend_last more ((k, v) ∷ []) = (k, v ++ more) ∷ []
extend_last more ((k, v) ∷ e ∷ entries) = (k, v) ∷ extend_last more (e ∷ entries)

module _ (p : Platform) where
  abbrev trim : Str → Str
  trim = p.unicode.trim

  unfoldable pub parse_header_line : Str → Headers → Headers
  unfolding extend_last split_once
  parse_header_line line entries =
      if is_empty line
      then entries
      else if is_folded line
      then extend_last (b' ' ∷ p.unicode.trim_start line) entries
      else elim (split_once b':' line) [
        | none ↦ entries
        | some (name, value) ↦ entries ++ (trim name, trim value) ∷ []
      ]

  unfoldable pub parse_header_lines : List Str → Headers → Headers
  unfolding parse_header_line
  parse_header_lines [] entries = entries
  parse_header_lines (line ∷ lines) entries =
      parse_header_lines lines (parse_header_line (strip_last 13 line) entries)

  unfoldable pub parse_headers : Str → Headers
  unfolding parse_header_lines split
  parse_headers head = parse_header_lines (split 10 (p.from_utf8_lossy head)) []

  unfoldable pub split_message : Str → Option (Headers × Str)
  unfolding split_head_body parse_headers
  split_message bytes = elim (split_head_body bytes) [
    | none ↦ none
    | some (head, body) ↦ some (parse_headers head, body)
  ]

-- `split_params` and `split_addresses`: the pieces between separators outside quotes; an empty last
-- piece is dropped.
unfoldable pub split_unquoted : ℕ → Bool → Str → Str → List Str
split_unquoted sep quoted piece [] = if is_empty piece then [] else piece ∷ []
split_unquoted sep quoted piece (c ∷ s) =
    let next = split_unquoted sep (if c == b'"' then not quoted else quoted) (piece ++ c ∷ []) s in
    let cut = piece ∷ split_unquoted sep quoted [] s in
    if c == b'"' then next else if quoted then next else if c == sep then cut else next

abbrev pub Params : Type 0
Params = Map Str Str

-- A value without the quotes around it: `strip_prefix('"')` and then `strip_suffix('"')`.
unfoldable pub strip_quote : Str → Option Str
strip_quote [] = none
strip_quote (c ∷ []) = if c == b'"' then some [] else none
strip_quote (c ∷ d ∷ s) = elim (strip_quote (d ∷ s)) [ none ↦ none | some rest ↦ some (c ∷ rest) ]

unfoldable pub unquote : Str → Str
unfolding strip_quote
unquote [] = []
unquote (c ∷ s) =
    if c == b'"' then elim (strip_quote s) [ none ↦ c ∷ s | some inner ↦ inner ] else c ∷ s

module _ (p : Platform) where
  unfoldable pub insert_params : List Str → Params → Params
  unfolding unquote split_once to_ascii_lowercase
  insert_params [] params = params
  insert_params (param ∷ rest) params = insert_params rest (elim (split_once b'=' param) [
    | none ↦ params
    | some (k, v) ↦ Map.insert (to_ascii_lowercase (trim p k)) (unquote (trim p v)) params
  ])

  abbrev media_and_rest : Str → Str × Str
  media_and_rest value = elim (split_once b';' value) [ some both ↦ both | none ↦ (value, []) ]

  unfoldable pub parse_media_type : Str → Option (Str × Params)
  unfolding insert_params split_unquoted split_once
  parse_media_type raw =
      let value = trim p raw in
      let (head, rest) = media_and_rest value in
      let media = to_ascii_lowercase (trim p head) in
      if is_empty value
      then none
      else if is_empty media
      then none
      else some (media, insert_params (split_unquoted b';' false [] rest) [])

-- `Part`.
pub record Part : Type 0 where
  pub headers : Headers
  pub body : Str

-- The line ending in front of a delimiter belongs to it.
unfoldable pub strip_line_end : Str → Str
strip_line_end [] = []
strip_line_end (c ∷ []) = if c == 10 then [] else c ∷ []
strip_line_end (c ∷ d ∷ []) =
    let rest = strip_line_end (d ∷ []) in
    if c == 13 then (if d == 10 then [] else c ∷ rest) else c ∷ rest
strip_line_end (c ∷ d ∷ e ∷ s) = c ∷ strip_line_end (d ∷ e ∷ s)

unfoldable pub strip_line_start : Str → Str
unfolding strip_prefix
strip_line_start rest = elim (strip_prefix (13 ∷ 10 ∷ []) rest) [
  | some s ↦ s
  | none ↦ elim (strip_prefix (10 ∷ []) rest) [ some s ↦ s | none ↦ rest ]
]

module _ (p : Platform) where
  abbrev add_part : Str → List Part → List Part
  add_part piece parts = elim (split_message p piece) [
    | none ↦ parts
    | some (headers, body) ↦ record { headers = headers; body = body } ∷ parts
  ]

  -- The rounds of the loop behind a delimiter. Each round takes the delimiter out of the rest, so
  -- that a round for each byte, and one more, is enough.
  unfoldable pub parts_from : ℕ → Str → Str → List Part
  unfolding strip_line_start strip_line_end starts_with find split_message
  parts_from zero delim rest = []
  parts_from (suc fuel) delim rest =
      let next = find delim (strip_line_start rest) in
      if starts_with (codes "--") rest then [] else elim next [
        | none ↦ []
        | some (piece, after) ↦ add_part (strip_line_end piece) (parts_from fuel delim after)
      ]

  unfoldable pub split_parts : Str → Str → List Part
  unfolding parts_from find
  split_parts body boundary =
      let delim = codes "--" ++ boundary in
      elim (find delim body) [
        | none ↦ []
        | some (preamble, rest) ↦ parts_from (suc (length rest)) delim rest
      ]
