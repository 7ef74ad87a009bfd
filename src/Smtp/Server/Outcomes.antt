-- ===== src/Smtp/Server/Outcomes.antt =====
-- How a session ends, and what it does with a payload that is cut off
-- (crates/jmapsmtp/src/smtp_in.rs).
use jmapsmtp.Prelude.{
  ℕ, zero, suc, Bool, true, false, Option, some, List, [], ◌∷◌, ◌++◌, Str, ◌==◌, ◌<◌, ◌≤◌, ◌≡◌,
  refl, sym, arith, length, is_empty, is_some, codes, text_eq, if◌then◌else◌, append_assoc,
  append-nil,
}
use jmapsmtp.Smtp.{Unicode, lines_of, line, crlf, lf}
use jmapsmtp.Smtp.Payload.{strip_last, line_body, unstuff, read_data}
use jmapsmtp.Smtp.Server.{Config, Session, new_session, reset}
use jmapsmtp.Smtp.Server.Loop.{
  Event, reply, delivered, Outcome, Next, go_on, read_payload, stop, handle_line, deliver, sender,
  done, after_line, serve_lines, handle_inner,
}

module _ (u : Unicode) (cfg : Config) (accepts : Str → Bool) where
  length-read_data : (ls : List Str) → length (read_data ls).1 ≤ length ls
  unfolding read_data
  length-read_data [] = omega arith
  length-read_data (l ∷ ls) = ground (arith, length-read_data ls)

  after_line-total :
      (serve : List Str → Session → ℕ → List Event × Option Outcome) (ls : List Str)
      (session : Session) (errors : ℕ) (n : Next)
      → ((ls' : List Str) (session' : Session) (errors' : ℕ)
          → length ls' ≤ length ls
          → is_some (serve ls' session' errors').1 ≡ true)
      → is_some (after_line u cfg accepts serve ls session errors n).1 ≡ true
  unfolding after_line
  after_line-total serve ls session errors (stop events outcome) ih = refl
  after_line-total serve ls session errors (go_on events session' errors') ih =
      ih ls session' errors' (omega arith)
  after_line-total serve ls session errors read_payload ih =
      ih (read_data ls).1 (reset session) errors (length-read_data ls)

  serve_lines-total :
      (fuel : ℕ) (ls : List Str) (session : Session) (errors : ℕ)
      → length ls < fuel
      → is_some (serve_lines u cfg accepts fuel ls session errors).1 ≡ true
  unfolding serve_lines
  serve_lines-total zero ls session errors h = absurd (omega arith)
  serve_lines-total (suc fuel) [] session errors h = refl
  serve_lines-total (suc fuel) (l ∷ ls) session errors h =
      after_line-total (serve_lines u cfg accepts fuel) ls session errors _
        (λ ls' session' errors' le. serve_lines-total fuel ls' session' errors' (omega arith))

  -- Every session over a stream that ends comes to an outcome.
  pub handle_inner-total :
      (greeting : Bool) (input : Str) → is_some (handle_inner u cfg accepts greeting input).1 ≡ true
  unfolding handle_inner
  handle_inner-total greeting input =
      let ls = lines_of input in
      ground (arith, serve_lines-total (suc (length ls)) ls new_session 0 (omega arith))

-- A line of text as a sender puts it on the wire, without its ending: a leading dot is doubled.
abbrev pub stuffed : Str → Str
stuffed [] = []
stuffed (c ∷ s) = if c == b'.' then c ∷ c ∷ s else c ∷ s

-- The lines of the wire for lines of text, the last of which is cut off before its ending.
abbrev pub cut_off : List Str → Str → List Str
cut_off [] tail = if is_empty tail then [] else stuffed tail ∷ []
cut_off (text ∷ texts) tail = (stuffed text ++ crlf) ∷ cut_off texts tail

-- Lines of text, each with CRLF behind it, the last one too.
abbrev pub completed : List Str → Str → Str
completed [] tail = if is_empty tail then [] else tail ++ crlf
completed (text ∷ texts) tail = text ++ crlf ++ completed texts tail

strip_last-append : (b : ℕ) (s : Str) → strip_last b (s ++ b ∷ []) ≡ s
unfolding strip_last
strip_last-append b [] = ground arith
strip_last-append b (c ∷ []) = ground (arith, strip_last-append b [])
strip_last-append b (c ∷ d ∷ s) = ground (arith, strip_last-append b (d ∷ s))

line_body-crlf : (s : Str) → line_body (s ++ crlf) ≡ s
unfolding line_body
line_body-crlf s =
    let split : s ++ crlf ≡ (s ++ 13 ∷ []) ++ lf ∷ [] = sym (append_assoc s (13 ∷ []) (lf ∷ [])) in
    rw (split, strip_last-append lf (s ++ 13 ∷ []), strip_last-append 13 s) refl

unstuff-stuffed : (s : Str) → unstuff (stuffed s) ≡ s
unfolding unstuff
unstuff-stuffed [] = refl
unstuff-stuffed (c ∷ s) = ground arith

stuffed-no_end : (s : Str) → text_eq (stuffed s) (codes ".") ≡ false
unfolding text_eq
stuffed-no_end [] = refl
stuffed-no_end (c ∷ s) = ground arith

read_data-cut_off :
    (texts : List Str) (tail : Str)
    → line_body (stuffed tail) ≡ stuffed tail
    → read_data (cut_off texts tail) ≡ (completed texts tail, [])
unfolding read_data
read_data-cut_off [] [] h = refl
read_data-cut_off [] (c ∷ s) h =
    rw (read_data, h, stuffed-no_end (c ∷ s), unstuff-stuffed (c ∷ s), append-nil) refl
read_data-cut_off (text ∷ texts) tail h =
    rw
      (
        read_data,
        line_body-crlf (stuffed text),
        stuffed-no_end text,
        unstuff-stuffed text,
        read_data-cut_off texts tail h,
      )
      refl

module _ (u : Unicode) (cfg : Config) (accepts : Str → Bool) where
  -- A payload whose terminator never comes, since the connection ends, is delivered to the recipients and
  -- answered with 250: every line that was sent, without the dot that the sender added and with CRLF
  -- behind it, the last one too if it was cut off before its ending. The line before is one that asks for
  -- the payload, and the session has a recipient.
  pub serve_lines-cut :
      (fuel : ℕ) (l : Str) (texts : List Str) (tail : Str) (session : Session) (errors : ℕ)
      → handle_line u cfg accepts l session errors ≡ read_payload
      → is_empty session.rcpts ≡ false
      → line_body (stuffed tail) ≡ stuffed tail
      → serve_lines u cfg accepts (suc (suc fuel)) (l ∷ cut_off texts tail) session errors ≡ (
        reply (line "354 Go ahead. End your data with <CR><LF>.<CR><LF>")
            ∷ delivered (sender u cfg accepts session.from) session.rcpts (completed texts tail)
            ∷ reply (line "250 2.0.0 OK: queued")
            ∷ [],
        some done,
      )
  unfolding serve_lines after_line deliver
  serve_lines-cut fuel l texts tail session errors e some_there h =
      rw (e, after_line, read_data-cut_off texts tail h, some_there, deliver) refl
