-- ===== src/Smtp/Server/Deliveries.antt =====
-- What a session delivers, whatever the peer sends (crates/jmapsmtp/src/smtp_in.rs).
use jmapsmtp.Prelude.{
  ℕ, zero, suc, Bool, true, false, Option, none, some, List, [], ◌∷◌, Str, ◌≡◌, length, is_empty,
  Bool-cases, Option-cases, inl, inr, All, All-append, if-cases, not, ◌&&◌, ltb, codes,
}
use jmapsmtp.Result.{ok, err}
use jmapsmtp.Words.{succ_u32}
use jmapsmtp.Smtp.{Checked, Unicode, lines_of, is_utf8}
use jmapsmtp.Smtp.Payload.{read_data}
use jmapsmtp.Smtp.Server.{
  Config, Session, new_session, reset, Verb, ehlo, helo, mail, rcpt, data_verb, rset, noop, quit,
  auth, starttls_verb, vrfy, empty_verb, unknown, Command, command, bad_command, parse_path,
  verb_of,
}
use jmapsmtp.Smtp.Server.Loop.{
  Event, reply, delivered, Outcome, Next, go_on, read_payload, stop, protocol_error, mail_command,
  rcpt_command, keep_recipient, dispatch, run_command, handle_line, deliver, after_line,
  serve_lines, handle_inner,
}

module _ (u : Unicode) (cfg : Config) (accepts : Str → Bool) where
  -- A recipient that the backend serves, and a delivery to some of those.
  abbrev pub IsServed : Str → Type 0
  IsServed r = accepts r ≡ true

  abbrev pub IsSound : Event → Type 0
  IsSound (reply text) = Unit
  IsSound (delivered from rcpts raw) = (is_empty rcpts ≡ false) × All IsServed rcpts

  -- What a step hands on.
  abbrev IsSoundNext : Next → Type 0
  IsSoundNext (go_on events session errors) = All IsSound events × All IsServed session.rcpts
  IsSoundNext read_payload = Unit
  IsSoundNext (stop events outcome) = All IsSound events

  protocol_error-IsSoundNext :
      (text : Str) (session : Session) (errors : ℕ)
      → All IsServed session.rcpts
      → IsSoundNext (protocol_error text session errors)
  unfolding protocol_error
  protocol_error-IsSoundNext text session errors h = elim (Bool-cases (ltb 3 (succ_u32 errors))) [
    | inl e ↦ rw (e, protocol_error) (tt, (tt, tt))
    | inr e ↦ rw (e, protocol_error) ((tt, tt), h)
  ]

  keep_recipient-IsServed :
      (address : Str) (session : Session)
      → All IsServed session.rcpts
      → All IsServed (keep_recipient u cfg accepts address session).rcpts
  unfolding keep_recipient
  keep_recipient-IsServed address session h = elim (Bool-cases (accepts address)) [
    | inl e ↦ rw (e, keep_recipient) (All-append IsServed session.rcpts (address ∷ []) h (e, tt))
    | inr e ↦ rw (e, keep_recipient) h
  ]

  mail_command-IsSoundNext :
      (c : Checked (Option Str)) (session : Session) (errors : ℕ)
      → All IsServed session.rcpts
      → IsSoundNext (mail_command u cfg accepts c session errors)
  unfolding mail_command
  mail_command-IsSoundNext (err p) session errors h = tt
  mail_command-IsSoundNext (ok none) session errors h = ((tt, tt), h)
  mail_command-IsSoundNext (ok (some addr)) session errors h = ((tt, tt), tt)

  rcpt_command-IsSoundNext :
      (c : Checked (Option Str)) (session : Session) (errors : ℕ)
      → All IsServed session.rcpts
      → IsSoundNext (rcpt_command u cfg accepts c session errors)
  unfolding rcpt_command
  rcpt_command-IsSoundNext (err p) session errors h = tt
  rcpt_command-IsSoundNext (ok none) session errors h = ((tt, tt), h)
  rcpt_command-IsSoundNext (ok (some addr)) session errors h =
      ((tt, tt), keep_recipient-IsServed (u.to_lowercase addr) session h)

  dispatch-IsSoundNext :
      (v : Verb) (rest : Str) (session : Session) (errors : ℕ)
      → All IsServed session.rcpts
      → IsSoundNext (dispatch u cfg accepts v rest session errors)
  unfolding dispatch reset
  dispatch-IsSoundNext ehlo rest session errors h = ((tt, tt), tt)
  dispatch-IsSoundNext helo rest session errors h = ((tt, tt), tt)
  dispatch-IsSoundNext mail rest session errors h =
      if-cases IsSoundNext (not session.greeted) _ _ ((tt, tt), h)
        (mail_command-IsSoundNext (parse_path u rest (codes "FROM:")) session errors h)
  dispatch-IsSoundNext rcpt rest session errors h = elim (Option-cases session.from) [
    | inl e ↦ rw (e, dispatch) ((tt, tt), h)
    | inr (from, e) ↦
        rw (e, dispatch)
          (rcpt_command-IsSoundNext (parse_path u rest (codes "TO:")) session errors h)
  ]
  dispatch-IsSoundNext data_verb rest session errors h = elim (Option-cases session.from) [
    | inl e ↦ rw (e, dispatch) ((tt, tt), h)
    | inr (from, e) ↦ rw (e, dispatch) tt
  ]
  dispatch-IsSoundNext rset rest session errors h = ((tt, tt), tt)
  dispatch-IsSoundNext noop rest session errors h = ((tt, tt), h)
  dispatch-IsSoundNext quit rest session errors h = (tt, tt)
  dispatch-IsSoundNext auth rest session errors h = ((tt, tt), h)
  dispatch-IsSoundNext starttls_verb rest session errors h =
      elim (Bool-cases (cfg.starttls && cfg.tls_available)) [
        | inl e ↦ rw (e, dispatch) (tt, tt)
        | inr e ↦ elim (Bool-cases cfg.starttls) [
          | inl d ↦ rw (e, d, dispatch) ((tt, tt), h)
          | inr d ↦ rw (e, d, dispatch) (protocol_error-IsSoundNext _ session errors h)
        ]
      ]
  dispatch-IsSoundNext vrfy rest session errors h = ((tt, tt), h)
  dispatch-IsSoundNext empty_verb rest session errors h =
      protocol_error-IsSoundNext _ session errors h
  dispatch-IsSoundNext (unknown v) rest session errors h =
      protocol_error-IsSoundNext _ session errors h

  run_command-IsSoundNext :
      (c : Checked Command) (session : Session) (errors : ℕ)
      → All IsServed session.rcpts
      → IsSoundNext (run_command u cfg accepts c session errors)
  unfolding run_command
  run_command-IsSoundNext (err p) session errors h = tt
  run_command-IsSoundNext (ok bad_command) session errors h =
      protocol_error-IsSoundNext _ session errors h
  run_command-IsSoundNext (ok (command v rest)) session errors h =
      dispatch-IsSoundNext (verb_of v) rest session errors h

  handle_line-IsSoundNext :
      (l : Str) (session : Session) (errors : ℕ)
      → All IsServed session.rcpts
      → IsSoundNext (handle_line u cfg accepts l session errors)
  unfolding handle_line
  handle_line-IsSoundNext l session errors h = elim (Bool-cases (is_utf8 l)) [
    | inl e ↦ rw (e, handle_line) (run_command-IsSoundNext _ session errors h)
    | inr e ↦ rw (e, handle_line) tt
  ]

  deliver-IsSound :
      (session : Session) (raw : Str)
      → All IsServed session.rcpts
      → All IsSound (deliver u cfg accepts session raw)
  unfolding deliver
  deliver-IsSound session raw h = elim (Bool-cases (is_empty session.rcpts)) [
    | inl e ↦ rw (e, deliver) tt
    | inr e ↦ rw (e, deliver) ((e, h), tt)
  ]

  after_line-IsSound :
      (serve : List Str → Session → ℕ → List Event × Option Outcome) (ls : List Str)
      (session : Session) (errors : ℕ) (n : Next)
      → ((ls' : List Str) (session' : Session) (errors' : ℕ)
          → All IsServed session'.rcpts
          → All IsSound (serve ls' session' errors').0)
      → All IsServed session.rcpts
      → IsSoundNext n
      → All IsSound (after_line u cfg accepts serve ls session errors n).0
  unfolding after_line reset
  after_line-IsSound serve ls session errors (stop events outcome) ih h sound = sound
  after_line-IsSound serve ls session errors (go_on events session' errors') ih h sound =
      All-append IsSound events _ sound.0 (ih ls session' errors' sound.1)
  after_line-IsSound serve ls session errors read_payload ih h sound = (
    tt,
    All-append IsSound (deliver u cfg accepts session (read_data ls).0) _
        (deliver-IsSound session (read_data ls).0 h)
        (tt, ih (read_data ls).1 (reset session) errors tt),
  )

  serve_lines-IsSound :
      (fuel : ℕ) (ls : List Str) (session : Session) (errors : ℕ)
      → All IsServed session.rcpts
      → All IsSound (serve_lines u cfg accepts fuel ls session errors).0
  unfolding serve_lines
  serve_lines-IsSound zero ls session errors h = tt
  serve_lines-IsSound (suc fuel) [] session errors h = tt
  serve_lines-IsSound (suc fuel) (l ∷ ls) session errors h =
      after_line-IsSound (serve_lines u cfg accepts fuel) ls session errors _
        (serve_lines-IsSound fuel) h (handle_line-IsSoundNext l session errors h)

  -- Whatever the peer sends, `deliver` is called with some recipients only, each of which the
  -- backend serves.
  pub handle_inner-IsSound :
      (greeting : Bool) (input : Str) → All IsSound (handle_inner u cfg accepts greeting input).0
  unfolding handle_inner
  handle_inner-IsSound greeting input =
      let ls = lines_of input in
      let served = serve_lines-IsSound (suc (length ls)) ls new_session 0 tt in
      elim (Bool-cases greeting) [
        | inl e ↦ rw (e, handle_inner) (tt, served)
        | inr e ↦ rw (e, handle_inner) served
      ]
