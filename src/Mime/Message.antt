-- ===== src/Mime/Message.antt =====
-- `parse_mime_email` of crates/jmapserver/src/mime.rs: the message that a text is stored as.
use jmapsmtp.Prelude.{
  false, Option, none, some, List, [], ◌∷◌, Str, String, codes, ◌==◌, ◌||◌, if◌then◌else◌, is_empty,
  any, trim_by, eq_ignore_ascii_case,
}
use jmapsmtp.Map
use jmapsmtp.Map.{Map}
use jmapsmtp.Keys.{text_ord}
use jmapsmtp.JmapTypes.{
  Address, Header, Email, empty_email, BodyPart, body_part, no_parts, BodyValue,
}
use jmapsmtp.Mime.{Platform, Headers, get, split_message}
use jmapsmtp.Mime.Words.{decode_words}
use jmapsmtp.Mime.Address.{parse_address, parse_address_list}
use jmapsmtp.Mime.Text.{extract_mime_text}

abbrev standard_headers : List String
standard_headers =
    "from" ∷ "to" ∷ "cc" ∷ "bcc" ∷ "subject" ∷ "date" ∷ "message-id" ∷ "in-reply-to" ∷ "references"
    ∷ "content-type" ∷ "content-transfer-encoding" ∷ "mime-version" ∷ "autocrypt"
    ∷ "autocrypt-gossip" ∷ "dkim-signature" ∷ "received" ∷ "return-path" ∷ "chat-version" ∷ []

-- The other headers by name, of each the first.
unfoldable pub collect_extra : Headers → Map Str Str → Map Str Str
unfolding eq_ignore_ascii_case Map.contains_key
collect_extra [] extra = extra
collect_extra ((name, value) ∷ headers) extra = collect_extra headers (
    if any (λ s. eq_ignore_ascii_case name (codes s)) standard_headers
    then extra
    else if Map.contains_key name extra
    then extra
    else Map.insert name value extra)

unfoldable pub header_list : Map Str Str → List Header
header_list [] = []
header_list ((name, value) ∷ extra) = record { name = name; value = value } ∷ header_list extra

-- The references without their angle brackets, those that are not empty.
unfoldable pub strip_references : List Str → List Str
unfolding trim_by
strip_references [] = []
strip_references (raw ∷ refs) =
    let r = trim_by (λ c. c == b'<' || c == b'>') raw in
    let rest = strip_references refs in if is_empty r then rest else r ∷ rest

abbrev single_address : Option Address → List Address
single_address none = []
single_address (some a) = a ∷ []

abbrev address_list : Option (List Address) → List Address
address_list none = []
address_list (some addrs) = addrs

abbrev unless_empty : Str → List Str
unless_empty id = if is_empty id then [] else id ∷ []

abbrev or_now : Option Str → Str → Str
or_now none now = now
or_now (some date) now = date

abbrev text_part : BodyPart
text_part = body_part (codes "1") [] 0 [] [] (codes "text/plain") [] [] [] [] [] no_parts

abbrev text_value : Str → BodyValue
text_value text = record { value = text; is_encoding_problem = false; is_truncated = false }

module _ (p : Platform) where
  abbrev id_of : Str → Headers → Str
  id_of name headers = trim_by (λ c. c == b' ' || c == b'<' || c == b'>') (get name headers)

  unfoldable pub message_of : Headers → Str → Str → Email
  unfolding get trim_by decode_words parse_address parse_address_list strip_references collect_extra
      header_list extract_mime_text
  message_of headers body now = record empty_email {
    subject = decode_words p (get (codes "Subject") headers);
    from = single_address (parse_address p (get (codes "From") headers));
    to = address_list (parse_address_list p (get (codes "To") headers));
    cc = address_list (parse_address_list p (get (codes "Cc") headers));
    received_at = some (or_now (p.rfc2822 (get (codes "Date") headers)) now);
    message_id = unless_empty (id_of (codes "Message-Id") headers);
    in_reply_to = unless_empty (id_of (codes "In-Reply-To") headers);
    references = strip_references (p.split_whitespace (get (codes "References") headers));
    headers = header_list (collect_extra headers []);
    body_values =
        (
          codes "1",
          text_value (
              extract_mime_text p (get (codes "Content-Type") headers)
                (get (codes "Content-Transfer-Encoding") headers) body),
        )
        ∷ [];
    text_body = text_part ∷ [];
  }

  unfoldable pub parse_mime_email : Str → Str → Option Email
  unfolding split_message message_of
  parse_mime_email bytes now = elim (split_message p bytes) [
    | none ↦ none
    | some (headers, body) ↦ some (message_of headers body now)
  ]
