-- ===== src/Mime/Build.antt =====
-- crates/jmapserver/src/mime.rs: a message as the text that is sent. A header is a pair of a name and
-- a value. What the crate of dates supplies is the record `DateTime` and the parser `to_datetime`.
use jmapsmtp.Prelude.{
  ℕ, ◌-◌, Bool, true, false, Option, none, some, List, [], ◌∷◌, ◌++◌, Str, String, codes, ◌==◌, not,
  ◌&&◌, ◌||◌, ltb, if◌then◌else◌, is_empty, any, trim_by, split_once, starts_with,
  eq_ignore_ascii_case, get_elem?,
}
use jmapsmtp.Decimal.{print}
use jmapsmtp.Map
use jmapsmtp.Keys.{text_ord}
use jmapsmtp.JmapTypes.{Address, Header, Email, BodyValue, BodyPart}
use jmapsmtp.Hooks.{part_id}
use jmapsmtp.Smtp.{crlf}
use jmapsmtp.Mime.{Platform, Headers}
use jmapsmtp.Mime.Address.{format_addr, join_addrs, bracket_join}
pub mod Reading

-- What `OffsetDateTime` answers: the weekday from Monday on, and the offset from UTC in hours and
-- minutes without its sign. `nanos` is the text of its nanoseconds since the epoch.
pub record DateTime : Type 0 where
  pub weekday : ℕ
  pub day : ℕ
  pub month : ℕ
  pub year : ℕ
  pub hour : ℕ
  pub minute : ℕ
  pub second : ℕ
  pub is_negative : Bool
  pub offset_hours : ℕ
  pub offset_minutes : ℕ
  pub nanos : Str

-- `{:02}` and `{:04}`.
unfoldable pub pad2 : ℕ → Str
unfolding print
pad2 n = if ltb n 10 then b'0' ∷ print n else print n

unfoldable pub pad4 : ℕ → Str
unfolding pad2
pad4 n = if ltb n 100 then b'0' ∷ b'0' ∷ pad2 n else if ltb n 1000 then b'0' ∷ pad2 n else pad2 n

abbrev days : List String
days = "Mon" ∷ "Tue" ∷ "Wed" ∷ "Thu" ∷ "Fri" ∷ "Sat" ∷ "Sun" ∷ []

abbrev months : List String
months =
    "Jan" ∷ "Feb" ∷ "Mar" ∷ "Apr" ∷ "May" ∷ "Jun" ∷ "Jul" ∷ "Aug" ∷ "Sep" ∷ "Oct" ∷ "Nov" ∷ "Dec"
    ∷ []

-- An element of a table; a date has no weekday or month outside it.
abbrev name_of : Option String → Str
name_of none = []
name_of (some name) = codes name

unfoldable pub format_rfc1123z : DateTime → Str
unfolding pad2 pad4
format_rfc1123z t =
    name_of (get_elem? days t.weekday)
    ++ codes ", "
    ++ pad2 t.day
    ++ codes " "
    ++ name_of (get_elem? months (t.month - 1))
    ++ codes " "
    ++ pad4 t.year
    ++ codes " "
    ++ pad2 t.hour
    ++ codes ":"
    ++ pad2 t.minute
    ++ codes ":"
    ++ pad2 t.second
    ++ codes " "
    ++ (if t.is_negative then codes "-" else codes "+")
    ++ pad2 t.offset_hours
    ++ pad2 t.offset_minutes

-- The value of the first text part.
abbrev value_of : Option BodyValue → Str
value_of none = []
value_of (some bv) = bv.value

abbrev first_value : List BodyPart → Map.Map Str BodyValue → Str
first_value [] values = []
first_value (part ∷ parts) values = value_of (Map.lookup (part_id part) values)

unfoldable pub message_body : Email → Str
message_body m = first_value m.text_body m.body_values

abbrev is_angle : ℕ → Bool
is_angle c = c == b'<' || c == b'>'

abbrev first_sender : List Address → Str
first_sender [] = []
first_sender (a ∷ from) = format_addr a

abbrev sender_domain : List Address → Str
sender_domain [] = []
sender_domain (a ∷ from) = elim (split_once b'@' a.email) [ none ↦ [] | some (_, d) ↦ d ]

unfoldable pub domain_for : Str → List Address → Str
unfolding split_once
domain_for default_domain from =
    let domain = if is_empty default_domain then sender_domain from else default_domain in
    if is_empty domain then codes "localhost" else domain

abbrev first_id : List Str → Str
first_id [] = []
first_id (m ∷ ids) = m

unfoldable pub message_id_for : Email → Str → DateTime → Str → Str
unfolding trim_by domain_for
message_id_for e default_domain now random_hex =
    let given = first_id e.message_id in
    if is_empty given
    then now.nanos ++ codes "." ++ random_hex ++ codes "@" ++ domain_for default_domain e.from
    else trim_by is_angle given

abbrev skipped_headers : List String
skipped_headers =
    "from" ∷ "to" ∷ "cc" ∷ "subject" ∷ "date" ∷ "message-id" ∷ "in-reply-to" ∷ "references"
    ∷ "content-type" ∷ []

unfoldable pub extra_headers : List Header → Headers
unfolding eq_ignore_ascii_case
extra_headers [] = []
extra_headers (h ∷ headers) =
    let rest = extra_headers headers in
    if any (λ s. eq_ignore_ascii_case h.name (codes s)) skipped_headers
    then rest
    else (h.name, h.value) ∷ rest

abbrev unless_empty : Str → Str → Headers
unless_empty name value = if is_empty value then [] else (name, value) ∷ []

-- `sent_at.or(received_at)`, and the clock where that is no date.
abbrev either_time : Option Str → Option Str → Option Str
either_time (some t) received = some t
either_time none received = received

unfoldable pub print_headers : Headers → Str
print_headers [] = []
print_headers ((name, value) ∷ headers) =
    name ++ codes ": " ++ value ++ crlf ++ print_headers headers

module _ (p : Platform) where
  unfoldable pub subject_for : Email → Str
  unfolding starts_with
  subject_for e =
      if not (is_empty e.in_reply_to)
        && not (is_empty e.subject)
        && not (starts_with (codes "re:") (p.unicode.to_lowercase e.subject))
      then codes "Re: " ++ e.subject
      else e.subject

  module _ (to_datetime : Str → Option DateTime) where
    unfoldable pub date_for : Email → DateTime → DateTime
    date_for e now = elim (either_time e.sent_at e.received_at) [
      | none ↦ now
      | some text ↦ elim (to_datetime text) [ none ↦ now | some t ↦ t ]
    ]

    -- The headers in the order in which they are written.
    unfoldable pub headers_for : Email → Str → DateTime → Headers
    unfolding format_addr join_addrs subject_for format_rfc1123z date_for bracket_join extra_headers
    headers_for e msg_id now =
        (codes "MIME-Version", codes "1.0")
        ∷ (unless_empty (codes "From") (first_sender e.from)
            ++ unless_empty (codes "To") (join_addrs e.to)
            ++ unless_empty (codes "Cc") (join_addrs e.cc)
            ++ (codes "Subject", subject_for e)
              ∷ (codes "Date", format_rfc1123z (date_for e now))
              ∷ (codes "Message-Id", codes "<" ++ msg_id ++ codes ">")
              ∷ (if is_empty e.in_reply_to
                  then []
                  else (codes "In-Reply-To", bracket_join e.in_reply_to) ∷ [])
            ++ (if is_empty e.references
                then []
                else (codes "References", bracket_join e.references) ∷ [])
            ++ extra_headers e.headers
            ++ (codes "Content-Type", codes "text/plain; charset=utf-8") ∷ [])

    unfoldable pub build_rfc5322 : Email → Str → DateTime → Str → Str × Str
    unfolding message_id_for headers_for print_headers message_body
    build_rfc5322 e default_domain now random_hex =
        let msg_id = message_id_for e default_domain now random_hex in
        (print_headers (headers_for e msg_id now) ++ crlf ++ message_body e, msg_id)
