-- ===== src/Smtp/Server/Loop.antt =====
-- `handle_inner` of crates/jmapsmtp/src/smtp_in.rs: the loop over the commands of one session.
use jmapsmtp.Prelude.{
  ℕ, zero, suc, Bool, true, Option, none, some, List, [], ◌∷◌, ◌++◌, Str, codes, ltb, not, ◌&&◌,
  if◌then◌else◌, length, is_empty,
}
use jmapsmtp.Result.{ok, err}
use jmapsmtp.Words.{succ_u32}
use jmapsmtp.Smtp.{Checked, Unicode, crlf, line, lines_of, trim_line, is_utf8}
use jmapsmtp.Smtp.Payload.{read_data}
use jmapsmtp.Smtp.Server.{
  Config, Session, new_session, reset, Verb, ehlo, helo, mail, rcpt, data_verb, rset, noop, quit,
  auth, starttls_verb, vrfy, empty_verb, unknown, verb_of, ehlo_response, command, bad_command,
  Command, split_command, parse_path,
}

-- What the session does: a reply to the peer, or a call of `Backend::deliver`.
pub data Event : Type 0 where
  reply : Str → Event
  delivered : Str → List Str → Str → Event

-- How it ended: `Outcome`, an error of the stream, or a panic of the task.
pub data Outcome : Type 0 where
  done start_tls io_error panicked : Outcome

-- What the loop does after a line: read the next, read a payload first, or end.
pub data Next : Type 0 where
  go_on : List Event → Session → ℕ → Next
  read_payload : Next
  stop : List Event → Outcome → Next

abbrev say : Str → Session → ℕ → Next
say text session errors = go_on (reply text ∷ []) session errors

-- `protocol_error`, behind the reply that it counts.
unfoldable pub protocol_error : Str → Session → ℕ → Next
unfolding succ_u32
protocol_error text session errors =
    if ltb 3 (succ_u32 errors)
    then stop (reply text ∷ reply (line "500 5.5.1 Too many errors. Quiting now") ∷ []) done
    else go_on (reply text ∷ []) session (succ_u32 errors)

module _ (u : Unicode) (cfg : Config) (accepts : Str → Bool) where
  unfoldable pub mail_command : Checked (Option Str) → Session → ℕ → Next
  mail_command (err p) session errors = stop [] panicked
  mail_command (ok none) session errors =
      say (line "501 5.5.2 Was expecting MAIL arg syntax of FROM:<address>") session errors
  mail_command (ok (some addr)) session errors =
      say (codes "250 2.0.0 Roger, accepting mail from <" ++ addr ++ codes ">" ++ crlf)
        (record session { from = some addr; rcpts = [] }) errors

  -- The recipient is kept only if it is served here; the answer is the same.
  unfoldable pub keep_recipient : Str → Session → Session
  keep_recipient address session =
      if accepts address then record session { rcpts = session.rcpts ++ address ∷ [] } else session

  unfoldable pub rcpt_command : Checked (Option Str) → Session → ℕ → Next
  unfolding keep_recipient
  rcpt_command (err p) session errors = stop [] panicked
  rcpt_command (ok none) session errors =
      say (line "501 5.5.2 Was expecting RCPT arg syntax of TO:<address>") session errors
  rcpt_command (ok (some addr)) session errors =
      say (codes "250 2.0.0 I'll make sure <" ++ addr ++ codes "> gets this" ++ crlf)
        (keep_recipient (u.to_lowercase addr) session) errors

  -- The arms of the `match` on the verb.
  unfoldable pub dispatch : Verb → Str → Session → ℕ → Next
  unfolding reset ehlo_response parse_path protocol_error mail_command rcpt_command
  dispatch ehlo rest session errors =
      say (ehlo_response cfg rest) (record (reset session) { greeted = true }) errors
  dispatch helo rest session errors =
      say (codes "250 2.0.0 Hello " ++ rest ++ crlf) (record (reset session) { greeted = true })
        errors
  dispatch mail rest session errors =
      if not session.greeted
      then say (line "502 5.5.1 Please introduce yourself first.") session errors
      else mail_command (parse_path u rest (codes "FROM:")) session errors
  dispatch rcpt rest session errors = elim session.from [
    | none ↦ say (line "502 5.5.1 Missing MAIL FROM command.") session errors
    | some _ ↦ rcpt_command (parse_path u rest (codes "TO:")) session errors
  ]
  dispatch data_verb rest session errors = elim session.from [
    | none ↦ say (line "502 5.5.1 Missing RCPT TO command.") session errors
    | some _ ↦ read_payload
  ]
  dispatch rset rest session errors = say (line "250 2.0.0 Session reset") (reset session) errors
  dispatch noop rest session errors =
      say (line "250 2.0.0 I have successfully done nothing") session errors
  dispatch quit rest session errors = stop (reply (line "221 2.0.0 Bye") ∷ []) done
  dispatch auth rest session errors =
      say (line "502 5.5.1 This is a public MX; no authentication is offered.") session errors
  dispatch starttls_verb rest session errors =
      if cfg.starttls && cfg.tls_available
      then stop (reply (line "220 2.0.0 Ready to start TLS") ∷ []) start_tls
      else if cfg.starttls
      then say (line "454 4.7.0 TLS not available on this connection") session errors
      else protocol_error (line "500 5.5.2 Syntax errors, STARTTLS command unrecognized") session
          errors
  dispatch vrfy rest session errors =
      say (line "252 2.5.0 Cannot VRFY user, but will accept message") session errors
  dispatch empty_verb rest session errors =
      protocol_error (line "500 5.5.2 Error: bad syntax") session errors
  dispatch (unknown v) rest session errors =
      protocol_error
        (codes "500 5.5.2 Syntax errors, " ++ v ++ codes " command unrecognized" ++ crlf) session
        errors

  unfoldable pub run_command : Checked Command → Session → ℕ → Next
  unfolding protocol_error dispatch verb_of
  run_command (err p) session errors = stop [] panicked
  run_command (ok bad_command) session errors =
      protocol_error (line "501 5.5.2 Bad command") session errors
  run_command (ok (command v rest)) session errors = dispatch (verb_of v) rest session errors

  -- One line: `read_line` refuses what is no UTF-8.
  unfoldable pub handle_line : Str → Session → ℕ → Next
  unfolding is_utf8 trim_line split_command run_command
  handle_line l session errors =
      if is_utf8 l
      then run_command (split_command u (trim_line l)) session errors
      else stop [] io_error

  unfoldable pub sender : Option Str → Str
  sender none = []
  sender (some from) = from

  -- The deliveries of a payload, none if no recipient was kept.
  unfoldable pub deliver : Session → Str → List Event
  unfolding sender
  deliver session raw =
      if is_empty session.rcpts then [] else delivered (sender session.from) session.rcpts raw ∷ []

  -- What follows a line, by the rest of the loop.
  unfoldable pub after_line :
      (List Str → Session → ℕ → List Event × Option Outcome)
      → List Str
      → Session
      → ℕ
      → Next
      → List Event × Option Outcome
  unfolding reset deliver read_data
  after_line serve ls session errors (stop events outcome) = (events, some outcome)
  after_line serve ls session errors (go_on events session' errors') =
      let rest = serve ls session' errors' in (events ++ rest.0, rest.1)
  after_line serve ls session errors read_payload =
      let data_read = read_data ls in
      let rest = serve data_read.1 (reset session) errors in
      (
        reply (line "354 Go ahead. End your data with <CR><LF>.<CR><LF>")
              ∷ deliver session data_read.0
            ++ reply (line "250 2.0.0 OK: queued") ∷ rest.0,
        rest.1,
      )

  -- The loop, on fuel: `none` when there is not enough. One more than the lines is enough.
  unfoldable pub serve_lines : ℕ → List Str → Session → ℕ → List Event × Option Outcome
  unfolding handle_line after_line
  serve_lines zero ls session errors = ([], none)
  serve_lines (suc fuel) [] session errors = ([], some done)
  serve_lines (suc fuel) (l ∷ ls) session errors =
      after_line (serve_lines fuel) ls session errors (handle_line l session errors)

  -- `handle_inner`: the greeting, unless it was sent before an upgrade, and the loop.
  unfoldable pub handle_inner : Bool → Str → List Event × Option Outcome
  unfolding lines_of serve_lines
  handle_inner greeting input =
      let ls = lines_of input in
      let served = serve_lines (suc (length ls)) ls new_session 0 in
      if greeting
      then (
        reply (codes "220 " ++ cfg.hostname ++ codes " ESMTP Service Ready" ++ crlf) ∷ served.0,
        served.1,
      )
      else served
