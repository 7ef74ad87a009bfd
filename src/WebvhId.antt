-- ===== src/WebvhId.antt =====
-- crates/jmapsmtp/src/did/webvh_id.rs: what a relay reads out of a did:webvh identifier.
use jmapsmtp.Prelude.{
  ℕ, ◌+◌, ◌*◌, ◌^◌, Bool, true, false, Option, none, some, List, [], ◌∷◌, ◌++◌, Str, codes, ◌==◌,
  not, ◌&&◌, ◌||◌, ltb, if◌then◌else◌, is_empty, any, split, strip_prefix, text_eq,
  to_ascii_lowercase,
}
use jmapsmtp.Result.{Result, ok, err, ◌>>=◌}
use jmapsmtp.Decimal.{parse_digits}
use jmapsmtp.Mime.Words.{hex_pair}
pub mod Names

pub record WebvhId : Type 0 where
  pub scid : Str
  pub domain : Str
  pub port : Option ℕ
  pub username : Str

pub data ParseError : Type 0 where
  not_webvh : ParseError
  malformed_segments : ParseError
  not_single_segment_path : ParseError
  bad_port : ParseError
  bad_username : ParseError

-- `u16::from_str`, without zero.
abbrev in_range : Option ℕ → Result ParseError (Option ℕ)
in_range none = err bad_port
in_range (some n) = if n == 0 || not (ltb n (2 ^ 16)) then err bad_port else ok (some n)

unfoldable pub parse_port : Str → Result ParseError (Option ℕ)
unfolding parse_digits
parse_port [] = err bad_port
parse_port (c ∷ s) = in_range (if c == b'+' then parse_digits s else parse_digits (c ∷ s))

-- The host in front of `%3a`, and what follows it.
unfoldable pub split_escape : Str → Option (Str × Str)
unfolding strip_prefix
split_escape [] = none
split_escape (c ∷ s) =
    let rest = split_escape s in
    elim (strip_prefix (codes "%3a") (c ∷ s)) [
      | some port ↦ some ([], port)
      | none ↦ elim rest [ none ↦ none | some (host, port) ↦ some (c ∷ host, port) ]
    ]

unfoldable pub split_port : Str → Result ParseError (Str × Option ℕ)
unfolding split_escape to_ascii_lowercase parse_port
split_port domain_and_port =
    let lower = to_ascii_lowercase domain_and_port in
    elim (split_escape lower) [
      | none ↦ ok (lower, none)
      | some (host, port) ↦ parse_port port >>= λ p. ok (host, p)
    ]

abbrev and_byte : Option ℕ → Option Str → Option Str
and_byte none rest = none
and_byte (some b) none = none
and_byte (some b) (some s) = some (b ∷ s)

unfoldable pub percent_bytes : Str → Option Str
unfolding hex_pair
percent_bytes [] = some []
percent_bytes (c ∷ []) = if c == b'%' then none else some (c ∷ [])
percent_bytes (c ∷ d ∷ []) =
    let rest = percent_bytes (d ∷ []) in if c == b'%' then none else and_byte (some c) rest
percent_bytes (c ∷ d ∷ e ∷ s) =
    let plain = percent_bytes (d ∷ e ∷ s) in
    let behind = percent_bytes s in
    if c == b'%' then and_byte (hex_pair d e) behind else and_byte (some c) plain

-- `from_utf8` and `trim` are those of the standard library.
module _ (from_utf8 : Str → Option Str) (trim : Str → Str) where
  unfoldable pub percent_decode : Str → Option Str
  unfolding percent_bytes
  percent_decode s = elim (percent_bytes s) [ none ↦ none | some bytes ↦ from_utf8 bytes ]

  -- What a username must not be.
  unfoldable pub bad_name : Str → Bool
  bad_name username =
      is_empty username
      || text_eq username (codes ".")
      || text_eq username (codes "..")
      || any (λ b. b == b'/' || b == 92 || b == 0) username
      || not (text_eq (trim username) username)

  abbrev named : Str → Str → Option ℕ → Option Str → Result ParseError WebvhId
  named scid domain port none = err bad_username
  named scid domain port (some username) =
      if bad_name username
      then err bad_username
      else ok (record { scid = scid; domain = domain; port = port; username = username })

  abbrev on_host : Str → Str → Str × Option ℕ → Result ParseError WebvhId
  on_host scid username_raw (domain, port) =
      if is_empty domain
      then err malformed_segments
      else named scid domain port (percent_decode username_raw)

  -- The segments behind `did:webvh:`.
  unfoldable pub parse_segments : List Str → Result ParseError WebvhId
  unfolding percent_decode split_port bad_name
  parse_segments [] = err malformed_segments
  parse_segments (scid ∷ []) = err malformed_segments
  parse_segments (scid ∷ host ∷ path) =
      if is_empty scid
      then err malformed_segments
      else if is_empty host
      then err malformed_segments
      else elim path [
        | [] ↦ err not_single_segment_path
        | username_raw ∷ more ↦
            if is_empty more
            then (split_port host >>= on_host scid username_raw)
            else err not_single_segment_path
      ]

  unfoldable pub parse : Str → Result ParseError WebvhId
  unfolding parse_segments split strip_prefix
  parse did = elim (strip_prefix (codes "did:webvh:") did) [
    | none ↦ err not_webvh
    | some rest ↦ parse_segments (split b':' rest)
  ]
