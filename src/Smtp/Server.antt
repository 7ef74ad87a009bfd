-- ===== src/Smtp/Server.antt =====
-- crates/jmapsmtp/src/smtp_in.rs: the inbound session. The stream is the lines that the peer sends,
-- the session's answers and deliveries are a list of events, and every write is taken to succeed.
use jmapsmtp.Prelude.{
  ℕ, zero, suc, Bool, true, false, Option, none, some, List, [], ◌∷◌, ◌++◌, Str, codes, ◌==◌, leb,
  ltb, not, ◌&&◌, if◌then◌else◌, length, take, drop, is_empty, text_eq, eq_ignore_ascii_case,
  split_once, strip_prefix,
}
use jmapsmtp.Result.{Result, ok, err, ◌>>=◌}
use jmapsmtp.Words.{succ_u32}
use jmapsmtp.Smtp.{
  Checked, Panic, panic, Unicode, crlf, line, lines_of, trim_line, is_char_boundary, slice_to,
  slice_from, is_utf8,
}
pub mod Loop
pub mod Deliveries
pub mod Outcomes

pub record Config : Type 0 where
  pub hostname : Str
  pub starttls : Bool
  pub tls_available : Bool
  pub enable_smtputf8 : Bool

pub record Session : Type 0 where
  pub greeted : Bool
  pub from : Option Str
  pub rcpts : List Str

abbrev pub new_session : Session
new_session = record { greeted = false; from = none; rcpts = [] }

unfoldable pub reset : Session → Session
reset session = record session { from = none; rcpts = [] }

-- The verbs that the session tells apart.
pub data Verb : Type 0 where
  ehlo helo mail rcpt data_verb rset noop quit auth starttls_verb vrfy empty_verb : Verb
  unknown : Str → Verb

abbrev verb_names : List (Str × Verb)
verb_names =
    (codes "EHLO", ehlo)
    ∷ (codes "HELO", helo)
    ∷ (codes "MAIL", mail)
    ∷ (codes "RCPT", rcpt)
    ∷ (codes "DATA", data_verb)
    ∷ (codes "RSET", rset)
    ∷ (codes "NOOP", noop)
    ∷ (codes "QUIT", quit)
    ∷ (codes "AUTH", auth)
    ∷ (codes "STARTTLS", starttls_verb)
    ∷ (codes "VRFY", vrfy)
    ∷ (codes "", empty_verb)
    ∷ []

-- The arm of the `match` on a verb.
verb_in : List (Str × Verb) → Str → Verb
verb_in [] v = unknown v
verb_in ((name, verb) ∷ names) v =
    let rest = verb_in names v in if text_eq v name then verb else rest

unfoldable pub verb_of : Str → Verb
unfolding verb_in
verb_of = verb_in verb_names

-- The capabilities of the response to `EHLO`, and their lines: `250-` but for the last.
unfoldable pub capabilities : Config → List Str
capabilities cfg =
    codes "PIPELINING"
      ∷ codes "8BITMIME"
      ∷ codes "ENHANCEDSTATUSCODES"
      ∷ codes "CHUNKING"
      ∷ (if cfg.starttls then codes "STARTTLS" ∷ [] else [])
    ++ (if cfg.enable_smtputf8 then codes "SMTPUTF8" ∷ [] else [])
    ++ codes "SIZE" ∷ []

unfoldable pub capability_lines : List Str → Str
capability_lines [] = []
capability_lines (cap ∷ []) = codes "250 " ++ cap ++ crlf
capability_lines (cap ∷ next ∷ caps) = codes "250-" ++ cap ++ crlf ++ capability_lines (next ∷ caps)

unfoldable pub ehlo_response : Config → Str → Str
unfolding capabilities capability_lines
ehlo_response cfg domain =
    codes "250-Hello " ++ domain ++ crlf ++ capability_lines (capabilities cfg)

-- What `split_command` answers: a verb with the rest of the line, or `BadCommand`.
pub data Command : Type 0 where
  command : Str → Str → Command
  bad_command : Command

-- The lines that are not the prefix `STARTTLS`: a verb has four bytes.
abbrev byte_at : ℕ → Str → ℕ
byte_at i s = elim (drop i s) [ [] ↦ 0 | c ∷ _ ↦ c ]

module _ (u : Unicode) where
  unfoldable pub split_verb : Str → Command
  unfolding is_char_boundary
  split_verb l =
      if is_empty l
      then command [] []
      else if ltb (length l) 4
      then bad_command
      else if length l == 4
      then command (u.to_uppercase l) []
      else if length l == 5
      then bad_command
      else if is_char_boundary 4 l && byte_at 4 l == 32
      then command (u.to_uppercase (take 4 l)) (u.trim (drop 5 l))
      else bad_command

  unfoldable pub split_command : Str → Checked Command
  unfolding trim_line slice_to split_verb
  split_command raw =
      let l = trim_line raw in
      if ltb (length l) 8
      then ok (split_verb l)
      else slice_to 8 l >>= λ start.
          if eq_ignore_ascii_case start (codes "STARTTLS")
          then ok (command (codes "STARTTLS") [])
          else ok (split_verb l)

  -- The address of an argument behind its prefix: in angle brackets, or up to white space.
  unfoldable pub parse_address : Str → Option Str
  parse_address arg = elim (strip_prefix (codes "<") arg) [
    | some stripped ↦ elim (split_once b'>' stripped) [ none ↦ none | some (addr, _) ↦ some addr ]
    | none ↦
        let addr : Str = elim (u.find_whitespace arg) [ none ↦ arg | some i ↦ take i arg ] in
        if is_empty addr then none else some addr
  ]

  unfoldable pub parse_path : Str → Str → Checked (Option Str)
  unfolding slice_to slice_from parse_address
  parse_path raw prefix =
      let rest = u.trim_start raw in
      if ltb (length rest) (length prefix)
      then ok none
      else slice_to (length prefix) rest >>= λ start.
          if not (eq_ignore_ascii_case start prefix)
          then ok none
          else slice_from (length prefix) rest >>= λ arg. ok (parse_address (u.trim_start arg))
