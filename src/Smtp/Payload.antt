-- ===== src/Smtp/Payload.antt =====
-- The payload of `DATA` on the wire: `dot_stuff` and the writes of `converse`
-- (crates/jmapsmtp/src/smtp_out.rs), and `read_data` (crates/jmapsmtp/src/smtp_in.rs).
use jmapsmtp.Prelude.{
  ℕ, Bool, true, false, Option, none, some, List, [], ◌∷◌, ◌++◌, Str, codes, ◌==◌, ◌&&◌,
  if◌then◌else◌, is_empty, text_eq,
}
use jmapsmtp.Smtp.{crlf, lf}
pub mod Lines
pub mod RoundTrip

-- `strip_suffix` of one byte.
unfoldable pub strip_last : ℕ → Str → Str
strip_last b [] = []
strip_last b (c ∷ []) = if c == b then [] else c ∷ []
strip_last b (c ∷ d ∷ s) = c ∷ strip_last b (d ∷ s)

-- A line without its ending, and without the dot that the sender added.
unfoldable pub line_body : Str → Str
unfolding strip_last
line_body l = strip_last 13 (strip_last lf l)

unfoldable pub unstuff : Str → Str
unstuff [] = []
unstuff (c ∷ s) = if c == b'.' then s else c ∷ s

-- `read_data`, with the lines that it leaves in the stream.
unfoldable pub read_data : List Str → Str × List Str
unfolding line_body unstuff
read_data [] = ([], [])
read_data (l ∷ ls) =
    let rest = read_data ls in
    let body = line_body l in
    if text_eq body (codes ".") then ([], ls) else (unstuff body ++ crlf ++ rest.0, rest.1)

-- `dot_stuff`, with the flag of the loop.
unfoldable pub stuff_from : Bool → Str → Str
stuff_from at_line_start [] = []
stuff_from at_line_start (b ∷ s) =
    let rest = b ∷ stuff_from (b == lf) s in
    if at_line_start && b == b'.' then b'.' ∷ rest else rest

unfoldable pub dot_stuff : Str → Str
unfolding stuff_from
dot_stuff = stuff_from true

unfoldable pub ends_with : ℕ → Str → Bool
ends_with b [] = false
ends_with b (c ∷ []) = c == b
ends_with b (c ∷ d ∷ s) = ends_with b (d ∷ s)

-- What `converse` writes after the reply to `DATA`.
unfoldable pub payload : Str → Str
unfolding dot_stuff ends_with
payload raw = dot_stuff raw ++ (if ends_with lf raw then [] else crlf) ++ codes "." ++ crlf
