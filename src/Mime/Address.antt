-- ===== src/Mime/Address.antt =====
-- crates/jmapserver/src/mime.rs: addresses of headers, and the envelope of a message.
use jmapsmtp.Prelude.{
  ℕ, Bool, true, false, Option, none, some, List, [], ◌∷◌, ◌++◌, Str, codes, ◌==◌, not, ◌&&◌, ◌||◌,
  leb, if◌then◌else◌, is_empty, any, join, trim_by, split_once, rsplit_once,
}
use jmapsmtp.Map.Set
use jmapsmtp.Map.Set.{Set}
use jmapsmtp.Keys.{text_ord}
use jmapsmtp.CustomDomain.{all}
use jmapsmtp.Hooks.{Envelope, EnvelopeAddress}
use jmapsmtp.JmapTypes.{Address, Email}
use jmapsmtp.Mime.{Platform, is_wsp, split_unquoted}
use jmapsmtp.Mime.Words.{decode_words, encode_word}
pub mod Recipients

abbrev is_quote : ℕ → Bool
is_quote c = c == b'"'

abbrev checked_address : Address → Option Address
checked_address a = if any (λ c. c == b'@') a.email then some a else none

module _ (p : Platform) where
  abbrev display_name : Str → Str
  display_name before = decode_words p (p.unicode.trim (trim_by is_quote (p.unicode.trim before)))

  -- The last `<` of the value, with the last `>` behind it.
  unfoldable pub parse_address : Str → Option Address
  unfolding rsplit_once trim_by decode_words
  parse_address raw =
      let value = p.unicode.trim raw in
      let bare = checked_address (record { name = []; email = value }) in
      if is_empty value then none else elim (rsplit_once b'<' value) [
        | none ↦ bare
        | some (before, behind) ↦ elim (rsplit_once b'>' behind) [
          | none ↦ bare
          | some (inner, _) ↦
              checked_address (record { name = display_name before; email = p.unicode.trim inner })
        ]
      ]

  unfoldable pub parse_entries : List Str → Option (List Address)
  unfolding parse_address
  parse_entries [] = some []
  parse_entries (entry ∷ entries) = elim (parse_address entry) [
    | none ↦ none
    | some a ↦ elim (parse_entries entries) [ none ↦ none | some rest ↦ some (a ∷ rest) ]
  ]

  abbrev not_empty : Option (List Address) → Option (List Address)
  not_empty none = none
  not_empty (some []) = none
  not_empty (some (a ∷ rest)) = some (a ∷ rest)

  unfoldable pub parse_address_list : Str → Option (List Address)
  unfolding parse_entries split_unquoted
  parse_address_list raw =
      let value = p.unicode.trim raw in
      if is_empty value
      then none
      else not_empty (parse_entries (split_unquoted b',' false [] value))

abbrev is_vchar : ℕ → Bool
is_vchar c = leb 33 c && leb c 126

-- A byte of a quoted string: kept, escaped, or dropped.
abbrev quote_byte : ℕ → Str
quote_byte c =
    if is_vchar c && not (c == b'\\') && not (c == b'"') || is_wsp c
    then c ∷ []
    else if is_vchar c
    then b'\\' ∷ c ∷ []
    else []

unfoldable pub quote_bytes : Str → Str
quote_bytes [] = []
quote_bytes (c ∷ s) = quote_byte c ++ quote_bytes s

unfoldable pub quote_string : Str → Str
unfolding quote_bytes
quote_string s = b'"' ∷ (quote_bytes s ++ b'"' ∷ [])

unfoldable pub render_display_name : Str → Str
unfolding quote_string encode_word
render_display_name name =
    if all (λ c. is_vchar c || is_wsp c) name then quote_string name else encode_word name

abbrev local_name : Option (Str × Str) → Str
local_name none = []
local_name (some (local, _)) = local

unfoldable pub format_addr : Address → Str
unfolding split_once render_display_name
format_addr a =
    let name = if is_empty a.name then local_name (split_once b'@' a.email) else a.name in
    if is_empty a.email
    then []
    else if is_empty name
    then b'<' ∷ (a.email ++ b'>' ∷ [])
    else render_display_name name ++ codes " <" ++ a.email ++ b'>' ∷ []

unfoldable pub formatted : List Address → List Str
unfolding format_addr
formatted [] = []
formatted (a ∷ addrs) =
    let text = format_addr a in if is_empty text then formatted addrs else text ∷ formatted addrs

unfoldable pub join_addrs : List Address → Str
unfolding formatted join
join_addrs addrs = join (codes ", ") (formatted addrs)

abbrev is_bracket : ℕ → Bool
is_bracket c = c == b' ' || c == b'<' || c == b'>'

unfoldable pub bracketed : List Str → List Str
unfolding trim_by
bracketed [] = []
bracketed (raw ∷ ids) =
    let id = trim_by is_bracket raw in
    if is_empty id then bracketed ids else (b'<' ∷ (id ++ b'>' ∷ [])) ∷ bracketed ids

unfoldable pub bracket_join : List Str → Str
unfolding bracketed join
bracket_join ids = join (codes " ") (bracketed ids)

abbrev pub envelope_address : Str → EnvelopeAddress
envelope_address email = record { email = email; parameters = none }

-- The loop over the addresses, with the addresses that were seen.
unfoldable pub add_recipients : Set Str → List Address → List EnvelopeAddress
unfolding Set.contains Set.insert
add_recipients seen [] = []
add_recipients seen (a ∷ addrs) =
    let skipped = add_recipients seen addrs in
    let added = envelope_address a.email ∷ add_recipients (Set.insert a.email seen) addrs in
    if is_empty a.email then skipped else if Set.contains a.email seen then skipped else added

abbrev pub envelope_to : Str → List EnvelopeAddress → Option Envelope
envelope_to mail_from [] = none
envelope_to mail_from (r ∷ rcpt) =
    some (record { mail_from = some (envelope_address mail_from); rcpt_to = r ∷ rcpt })

abbrev pub sender_of : List Address → Str
sender_of [] = []
sender_of (a ∷ from) = a.email

unfoldable pub build_envelope : Email → Option Envelope
unfolding add_recipients
build_envelope e =
    let mail_from = sender_of e.from in
    if is_empty mail_from
    then none
    else envelope_to mail_from (add_recipients [] (e.to ++ e.cc ++ e.bcc))
