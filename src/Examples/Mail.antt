-- ===== src/Examples/Mail.antt =====
-- A session that delivers one message, one that is cut off, and a payload on the wire.
use jmapsmtp.Prelude.{
  Bool, true, false, Option, none, some, List, [], ◌∷◌, ◌++◌, Str, codes, ◌≡◌, refl, All, text_eq,
  text_compare, is_some, to_ascii_uppercase, to_ascii_lowercase, strip_prefix, eq_ignore_ascii_case,
  split_once, trim, trim_start,
}
use jmapsmtp.Result.{Result, ok}
use jmapsmtp.Map
use jmapsmtp.Map.{Map}
use jmapsmtp.Keys.{text_ord}
use jmapsmtp.Smtp.Errors.{SendError}
use jmapsmtp.Smtp.Client
use jmapsmtp.Examples.Ascii.{ascii}
use jmapsmtp.Smtp.{lines_of, line, is_utf8, trim_line}
use jmapsmtp.Smtp.Payload.{read_data, payload, line_body}
use jmapsmtp.Smtp.Payload.RoundTrip.{canonical, canonical_line, read_data-payload}
use jmapsmtp.Smtp.Server.{Config, Session, split_command, parse_path, verb_of}
use jmapsmtp.Smtp.Server.Loop.{
  Event, reply, delivered, done, handle_line, run_command, dispatch, serve_lines, sender,
  handle_inner,
}
use jmapsmtp.Smtp.Server.Deliveries.{IsSound, handle_inner-IsSound}
use jmapsmtp.Smtp.Server.Outcomes.{handle_inner-total, serve_lines-cut}

abbrev config : Config
config = record {
  hostname = codes "mx";
  starttls = true;
  tls_available = false;
  enable_smtputf8 = true;
}

-- One address is served.
abbrev accepts : Str → Bool
accepts rcpt = text_eq rcpt (codes "a@b")

abbrev input : Str
input =
    line "EHLO peer"
    ++ line "MAIL FROM:<x@y>"
    ++ line "RCPT TO:<A@b>"
    ++ line "RCPT TO:<nobody@b>"
    ++ line "DATA"
    ++ line "..dot"
    ++ line "."
    ++ line "QUIT"

abbrev first_delivery : List Event → Option (Str × List Str × Str)
first_delivery [] = none
first_delivery (reply text ∷ events) = first_delivery events
first_delivery (delivered from rcpts raw ∷ events) = some (from, rcpts, raw)

handle_inner-IsSound_example :
    All (IsSound ascii config accepts) (handle_inner ascii config accepts true input).0
handle_inner-IsSound_example = handle_inner-IsSound ascii config accepts true input

handle_inner-total_example : is_some (handle_inner ascii config accepts true input).1 ≡ true
handle_inner-total_example = handle_inner-total ascii config accepts true input

abbrev ready : Session
ready = record { greeted = true; from = some (codes "x@y"); rcpts = codes "a@b" ∷ [] }

serve_lines-cut_example :
    serve_lines ascii config accepts 2 (line "DATA" ∷ line "..one" ∷ codes "half" ∷ []) ready 0 ≡ (
      reply (line "354 Go ahead. End your data with <CR><LF>.<CR><LF>")
          ∷ delivered (codes "x@y") (codes "a@b" ∷ []) (line ".one" ++ line "half")
          ∷ reply (line "250 2.0.0 OK: queued")
          ∷ [],
      some done,
    )
unfolding handle_line is_utf8 run_command split_command trim_line verb_of dispatch line_body
    read_data text_eq text_compare sender to_ascii_uppercase
serve_lines-cut_example =
    serve_lines-cut ascii config accepts 0 (line "DATA") (codes ".one" ∷ []) (codes "half") ready 0
      refl refl refl

read_data-payload_example :
    read_data (lines_of (payload (codes ".a" ++ 10 ∷ codes "b") ++ line "QUIT"))
    ≡ (line ".a" ++ line "b", line "QUIT" ∷ [])
unfolding canonical canonical_line lines_of
read_data-payload_example = read_data-payload (codes ".a" ++ 10 ∷ codes "b") (line "QUIT")

-- The whole session: the message goes to the one address that is served.
session_delivers :
    first_delivery (handle_inner ascii config accepts true input).0
    ≡ some (codes "x@y", codes "a@b" ∷ [], line ".dot")
unfolding handle_inner serve_lines lines_of is_utf8 trim_line split_command parse_path handle_line
    run_command dispatch verb_of read_data text_eq text_compare eq_ignore_ascii_case
    to_ascii_uppercase to_ascii_lowercase strip_prefix split_once trim trim_start
session_delivers = refl

abbrev mx : Str → List Str
mx domain = (codes "mx." ++ domain) ∷ []

abbrev takes_all : Str → List Str → Result SendError Unit
takes_all target addrs = ok tt

abbrev addresses : List Str
addresses = codes "a@x" ∷ codes "b@y" ∷ codes "c@x" ∷ []
