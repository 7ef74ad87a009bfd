-- ===== src/Smtp/Client.antt =====
-- crates/jmapsmtp/src/smtp_out.rs: the outbound client. A conversation is over the lines that the
-- server sends; a delivery is over the outcomes of its conversations.
use jmapsmtp.Prelude.{
  ℕ, zero, suc, ◌/◌, ◌+◌, Bool, true, false, Option, none, some, List, [], ◌∷◌, ◌++◌, Str, codes,
  ◌==◌, leb, ltb, not, ◌&&◌, if◌then◌else◌, is_empty, first, length, take, drop, rsplit_once,
  trim_end_by, eq_ignore_ascii_case, get_elem?,
}
use jmapsmtp.Result.{Result, ok, err, ◌>>=◌}
use jmapsmtp.Map
use jmapsmtp.Map.{Map}
use jmapsmtp.Keys.{text_ord}
use jmapsmtp.Smtp.{Checked, Panic, panic, Unicode, crlf, lf, line, lines_of, slice_from, is_utf8}
use jmapsmtp.Smtp.Payload.{strip_last, payload}
use jmapsmtp.Smtp.Errors.{SendError, io, rejected, no_recipients, no_mx, invalid_recipient}
pub mod Deliver

module _ (u : Unicode) where
  -- `split_whitespace().next()`.
  unfoldable pub first_word : Str → Option Str
  first_word s =
      let t = u.trim_start s in
      if is_empty t
      then none
      else some (elim (u.find_whitespace t) [ none ↦ t | some i ↦ take i t ])

  abbrev is_keyword : Str → Option Str → Bool
  is_keyword keyword none = false
  is_keyword keyword (some k) = eq_ignore_ascii_case k keyword

  -- The keyword of one line of the reply to EHLO, past the code and its separator.
  unfoldable pub line_advertises : Str → Str → Checked Bool
  unfolding strip_last trim_end_by slice_from first_word eq_ignore_ascii_case
  line_advertises keyword raw =
      let l = trim_end_by (λ c. c == 13) (strip_last lf raw) in
      if ltb 4 (length l)
      then (slice_from 4 l >>= λ rest. ok (is_keyword keyword (first_word rest)))
      else ok (is_keyword keyword (first_word []))

  unfoldable pub any_advertises : Str → List Str → Checked Bool
  unfolding line_advertises
  any_advertises keyword [] = ok false
  any_advertises keyword (l ∷ ls) =
      let rest = any_advertises keyword ls in
      line_advertises keyword l >>= λ yes. if yes then ok true else rest

  unfoldable pub advertises : Str → Str → Checked Bool
  unfolding lines_of any_advertises
  advertises ehlo keyword = any_advertises keyword (lines_of ehlo)

  unfoldable pub mail_from : Str → Str → Checked Str
  unfolding advertises
  mail_from from ehlo = advertises ehlo (codes "8BITMIME") >>= λ eight.
      advertises ehlo (codes "SMTPUTF8") >>= λ utf8. ok (
        codes "MAIL FROM:<"
        ++ from
        ++ codes ">"
        ++ (if eight then codes " BODY=8BITMIME" else [])
        ++ (if utf8 then codes " SMTPUTF8" else [])
        ++ crlf)

abbrev is_hyphen : Option ℕ → Bool
is_hyphen none = false
is_hyphen (some c) = c == b'-'

-- `read_reply`, with the lines that it leaves: a hyphen in the fourth column means more lines.
unfoldable pub read_reply : List Str → Result SendError (Str × List Str)
unfolding is_utf8
read_reply [] = err (io (codes "connection closed mid-reply"))
read_reply (l ∷ ls) =
    let rest = read_reply ls in
    if not (is_utf8 l)
    then err (io (codes "stream did not contain valid UTF-8"))
    else if is_hyphen (get_elem? l 3)
    then (rest >>= λ r. ok (l ++ r.0, r.1))
    else ok (l, ls)

abbrev first_byte : Str → ℕ
first_byte [] = b'5'
first_byte (c ∷ s) = c

-- `check`: the class of the reply is that of the code. A `u8` holds the class of every code in use.
unfoldable pub check : (Str → Str) → Str → ℕ → Str → Result SendError Str
check trim_end reply code what =
    if first_byte reply == b'0' + code / 100 then ok reply else err (rejected what (trim_end reply))

-- `converse`: what is written, and the outcome, over the lines of the server's replies. The answer to
-- a recipient is read and not looked at.
module _ (trim_end : Str → Str) where
  unfoldable pub expect : List Str → ℕ → Str → Result SendError (List Str)
  unfolding read_reply check
  expect ls code what = read_reply ls >>= λ r. check trim_end r.0 code what >>= λ reply. ok r.1

  unfoldable pub send_rcpts : List Str → List Str → List Str × Result SendError (List Str)
  unfolding read_reply
  send_rcpts [] ls = ([], ok ls)
  send_rcpts (addr ∷ to) ls =
      let command = codes "RCPT TO:<" ++ addr ++ codes ">" ++ crlf in
      elim (read_reply ls) [
        | err e ↦ (command ∷ [], err e)
        | ok r ↦ let rest = send_rcpts to r.1 in (command ∷ rest.0, rest.1)
      ]

  unfoldable pub send_data : Str → List Str → List Str × Result SendError Unit
  unfolding expect payload
  send_data raw ls = elim (expect ls 354 (codes "DATA")) [
    | err e ↦ (line "DATA" ∷ [], err e)
    | ok rest ↦ elim (expect rest 250 (codes "end DATA")) [
      | err e ↦ (line "DATA" ∷ payload raw ∷ [], err e)
      | ok _ ↦ (line "DATA" ∷ payload raw ∷ line "QUIT" ∷ [], ok tt)
    ]
  ]

  unfoldable pub after_rcpts :
      Str → List Str × Result SendError (List Str) → List Str × Result SendError Unit
  unfolding send_data
  after_rcpts raw (written, err e) = (written, err e)
  after_rcpts raw (written, ok ls) = let sent = send_data raw ls in (written ++ sent.0, sent.1)

  unfoldable pub conversation : Str → List Str → Str → List Str → List Str × Result SendError Unit
  unfolding expect send_rcpts after_rcpts
  conversation command to raw ls = elim (expect ls 250 (codes "MAIL FROM")) [
    | err e ↦ (command ∷ [], err e)
    | ok rest ↦ let sent = after_rcpts raw (send_rcpts to rest) in (command ∷ sent.0, sent.1)
  ]

  unfoldable pub converse :
      Unicode → Str → Str → List Str → Str → List Str → Checked (List Str × Result SendError Unit)
  unfolding mail_from conversation
  converse u ehlo from to raw ls =
      mail_from u from ehlo >>= λ command. ok (conversation command to raw ls)

-- The recipients by domain, in their order.
abbrev pub recipients_of : Option (List Str) → List Str
recipients_of none = []
recipients_of (some addrs) = addrs

unfoldable pub group : List Str → Map Str (List Str) → Result SendError (Map Str (List Str))
group [] by_domain = ok by_domain
group (addr ∷ to) by_domain = elim (rsplit_once b'@' addr) [
  | none ↦ err (invalid_recipient addr)
  | some (_, domain) ↦
      group to
        (Map.insert domain (recipients_of (Map.lookup domain by_domain) ++ addr ∷ []) by_domain)
]

-- `first_error.get_or_insert(e)`.
abbrev get_or_insert : Option SendError → SendError → Option SendError
get_or_insert none e = some e
get_or_insert (some d) e = some d

unfoldable pub target_of : Str → Str
unfolding trim_end_by
target_of host = trim_end_by (λ c. c == b'.') host ++ codes ":25"

abbrev finish : Option SendError → Result SendError Unit
finish none = ok tt
finish (some e) = err e

-- `Sender::deliver`, with the resolver and the outcome of a conversation as functions.
module _ (lookup_mx : Str → List Str) (send_one : Str → List Str → Result SendError Unit) where
  unfoldable pub after_group : Option SendError → Result SendError Unit → Option SendError
  after_group first_error (ok _) = first_error
  after_group first_error (err e) = get_or_insert first_error e

  unfoldable pub send_group : Str → List Str → Result SendError Unit
  unfolding target_of
  send_group domain addrs = elim (first (lookup_mx domain)) [
    | none ↦ err (no_mx domain)
    | some host ↦ send_one (target_of host) addrs
  ]

  unfoldable pub send_groups : Map Str (List Str) → Option SendError → Option SendError
  unfolding after_group send_group
  send_groups [] first_error = first_error
  send_groups ((domain, addrs) ∷ rest) first_error =
      send_groups rest (after_group first_error (send_group domain addrs))

  unfoldable pub deliver_all : Result SendError (Map Str (List Str)) → Result SendError Unit
  unfolding send_groups
  deliver_all (err e) = err e
  deliver_all (ok by_domain) = finish (send_groups by_domain none)

  unfoldable pub deliver : Option Str → List Str → Result SendError Unit
  unfolding group deliver_all
  deliver relay_host to =
      if is_empty to
      then err no_recipients
      else elim relay_host [ some relay ↦ send_one relay to | none ↦ deliver_all (group to []) ]
