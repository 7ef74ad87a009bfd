-- ===== src/Autocrypt.antt =====
-- crates/jmapsmtp/src/autocrypt.rs: the headers and the wrapping of a message on its way out. A message is
-- the list of its bytes. The hash and the check of UTF-8 come from the crates and the standard library.
use jmapsmtp.Prelude.{
  ℕ, ◌+◌, ◌/◌, ◌%◌, Bool, true, false, Option, none, some, List, [], ◌∷◌, ◌++◌, Str, codes, ◌==◌,
  not, ◌&&◌, ◌||◌, ltb, if◌then◌else◌, is_some, take, keep_if, split, split_once, starts_with,
  text_eq, eq_ignore_ascii_case, any,
}
use jmapsmtp.Smtp.{crlf}
use jmapsmtp.Mime.{find}
pub mod Headers
pub mod Advertised

abbrev pub separator : Str
separator = crlf ++ crlf

abbrev extended : Str → Str → Option (Str × Str) → Str
extended header raw none = raw
extended header raw (some (head, body)) = head ++ crlf ++ header ++ crlf ++ body

-- The header is the last one of its block; it ends with a line end.
unfoldable pub insert_header : Str → Str → Str
unfolding find
insert_header raw header = extended header raw (find separator raw)

unfoldable pub inject_chat_version : Str → Str
unfolding find starts_with insert_header
inject_chat_version raw =
    if is_some (find (10 ∷ codes "Chat-Version:") raw) || starts_with (codes "Chat-Version:") raw
    then raw
    else insert_header raw (codes "Chat-Version: 1.0" ++ crlf)

unfoldable pub inject_autocrypt : Str → Str → Str → Str
unfolding insert_header
inject_autocrypt raw from key_data = insert_header raw (
    codes "Autocrypt: addr="
    ++ from
    ++ codes "; prefer-encrypt=mutual; keydata="
    ++ key_data
    ++ crlf)

-- `trim` is that of `str`.
module _ (trim : Str → Str) where
  abbrev attribute : Str × Str → Option (Str × Str) → Str × Str
  attribute found none = found
  attribute (addr, keydata) (some (k, v)) =
      if text_eq (trim k) (codes "addr")
      then (trim v, keydata)
      else if text_eq (trim k) (codes "keydata")
      then (addr, trim v)
      else (addr, keydata)

  unfoldable pub parse_attributes : List Str → Str × Str → Str × Str
  unfolding split_once
  parse_attributes [] found = found
  parse_attributes (part ∷ parts) found =
      parse_attributes parts (attribute found (split_once b'=' (trim part)))

  unfoldable pub parse_autocrypt_header : Str → Str × Str
  unfolding parse_attributes
  parse_autocrypt_header header = parse_attributes (split b';' header) ([], [])

unfoldable pub unfold_keydata : Str → Str
unfold_keydata keydata = keep_if (λ c. not (c == 32 || c == 9 || c == 13 || c == 10)) keydata

abbrev push : ℕ → List Str → List Str
push c [] = (c ∷ []) ∷ []
push c (line ∷ lines) = (c ∷ line) ∷ lines

-- The lines between line ends; nothing stands behind the last line end.
unfoldable pub split_crlf : Str → List Str
split_crlf [] = []
split_crlf (c ∷ []) = (c ∷ []) ∷ []
split_crlf (c ∷ d ∷ s) =
    let behind = split_crlf s in
    let rest = split_crlf (d ∷ s) in if c == 13 && d == 10 then [] ∷ behind else push c rest

-- `replace_all` of a line feed by a line end.
unfoldable pub replace_all : Str → Str
replace_all [] = []
replace_all (c ∷ s) = let rest = replace_all s in if c == 10 then 13 ∷ 10 ∷ rest else c ∷ rest

abbrev hex_digit_lower : ℕ → ℕ
hex_digit_lower n = if ltb n 10 then b'0' + n else b'a' + n % 10

unfoldable pub hex_lower : Str → Str
hex_lower [] = []
hex_lower (b ∷ bytes) = hex_digit_lower (b / 16) ∷ hex_digit_lower (b % 16) ∷ hex_lower bytes

module _ (from_utf8 : Str → Option Str) (sha1 : Str → Str) where
  abbrev name_before : Str → Option (Str × Str) → Str
  name_before line none = line
  name_before line (some (name, value)) = name

  abbrev or_empty : Option Str → Str
  or_empty none = []
  or_empty (some s) = s

  unfoldable pub header_name : Str → Str
  unfolding split_once
  header_name line = or_empty (from_utf8 (name_before line (split_once b':' line)))

  abbrev describes_body : Str → Bool
  describes_body name =
      eq_ignore_ascii_case name (codes "content-type")
      || eq_ignore_ascii_case name (codes "content-transfer-encoding")

  unfoldable pub kept_headers : List Str → Str
  unfolding header_name eq_ignore_ascii_case
  kept_headers [] = []
  kept_headers (line ∷ lines) =
      let rest = kept_headers lines in
      if describes_body (header_name line) then rest else line ++ crlf ++ rest

  unfoldable pub wrapped : Str → Str → Str
  unfolding kept_headers split_crlf replace_all hex_lower
  wrapped headers pgp_block =
      let boundary = codes "biset-pgp-" ++ hex_lower (take 6 (sha1 pgp_block)) in
      kept_headers (split_crlf headers)
      ++ codes
          "Content-Type: multipart/encrypted; protocol=\"application/pgp-encrypted\"; boundary=\""
      ++ boundary
      ++ codes "\""
      ++ crlf
      ++ crlf
      ++ codes "--"
      ++ boundary
      ++ crlf
      ++ codes "Content-Type: application/pgp-encrypted"
      ++ separator
      ++ codes "Version: 1"
      ++ crlf
      ++ crlf
      ++ codes "--"
      ++ boundary
      ++ crlf
      ++ codes "Content-Type: application/octet-stream"
      ++ separator
      ++ replace_all pgp_block
      ++ crlf
      ++ codes "--"
      ++ boundary
      ++ codes "--"
      ++ crlf

  abbrev pgp_end : Str
  pgp_end = codes "-----END PGP MESSAGE-----"

  -- The block from the marker of its start to that of its end; `behind` is what follows the first.
  abbrev block_from : Str → Option Str
  block_from behind = elim (find pgp_end (codes "-----BEGIN PGP MESSAGE-----" ++ behind)) [
    | none ↦ none
    | some (inside, after) ↦ some (inside ++ pgp_end)
  ]

  abbrev pgp_block : Option (Str × Str) → Option Str
  pgp_block none = none
  pgp_block (some (before, behind)) = block_from behind

  unfoldable pub pgp_mime_wrap_inline : Str → Option Str
  unfolding find wrapped
  pgp_mime_wrap_inline raw = elim (find separator raw) [
    | none ↦ none
    | some (headers, body) ↦ elim (pgp_block (find (codes "-----BEGIN PGP MESSAGE-----") body)) [
      | none ↦ none
      | some block ↦ some (wrapped headers block)
    ]
  ]
