-- ===== src/Mime/Build/Reading.antt =====
-- A built message, as `split_message` reads it (crates/jmapserver/src/mime.rs).
use jmapsmtp.Prelude.{
  ℕ, false, Option, some, List, [], ◌∷◌, ◌++◌, Str, codes, ◌==◌, ◌≡◌, refl, ap, sym, ◌∙◌, All,
  All-append, map, append_assoc, append-nil, split, split_once, strip_prefix,
}
use jmapsmtp.Smtp.{crlf}
use jmapsmtp.Smtp.Payload.{strip_last}
use jmapsmtp.Smtp.Payload.Lines.{strip_last-append}
use jmapsmtp.JmapTypes.{Email}
use jmapsmtp.Mime.{
  Platform, Headers, find, is_wsp, split_head_body, split_message, parse_header_line,
  parse_header_lines, parse_headers,
}
use jmapsmtp.Mime.Words.Find.{find-prefix, find-pass}
use jmapsmtp.Mime.Build.{
  DateTime, headers_for, message_id_for, print_headers, build_rfc5322, message_body,
}

-- A byte that ends no line.
abbrev IsClear : ℕ → Type 0
IsClear c = ((13 == c) ≡ false) × ((c == 10) ≡ false)

-- A byte of a name, which ends no name either.
abbrev IsNameByte : ℕ → Type 0
IsNameByte c = IsClear c × ((c == b':') ≡ false)

abbrev IsName : Str → Type 0
IsName [] = ⊥
IsName (c ∷ s) = (is_wsp c ≡ false) × All IsNameByte (c ∷ s)

abbrev pub IsHeader : Str × Str → Type 0
IsHeader (name, value) = IsName name × All IsClear value

abbrev line_of : Str × Str → Str
line_of (name, value) = name ++ codes ": " ++ value

All-weaken {ℓ} :
    {A : Type ℓ} (P Q : A → Type 0) (xs : List A) → ((x : A) → P x → Q x) → All P xs → All Q xs
All-weaken P Q [] f h = tt
All-weaken P Q (x ∷ xs) f h = (f x h.0, All-weaken P Q xs f h.1)

line_of-IsClear : (h : Str × Str) → IsHeader h → All IsClear (line_of h)
line_of-IsClear ([], value) h = absurd h.0
line_of-IsClear (c ∷ name, value) h =
    All-append IsClear (c ∷ name ++ codes ": ") value
      (All-append IsClear (c ∷ name) (codes ": ")
        (All-weaken IsNameByte IsClear (c ∷ name) (λ x k. k.0) h.0.1)
        ((refl, refl), ((refl, refl), tt)))
      h.1

-- The text of a message, from its first header on.
print-message :
    (h : Str × Str) (hs : Headers) (t : Str)
    → print_headers (h ∷ hs) ++ t ≡ line_of h ++ 13 ∷ 10 ∷ (print_headers hs ++ t)
unfolding print_headers
print-message (name, value) hs t = simp append_assoc

abbrev blank : Str
blank = 13 ∷ 10 ∷ 13 ∷ 10 ∷ []

-- The headers up to the line ending of the last one.
unfoldable head_text : Str × Str → Headers → Str
head_text h [] = line_of h
head_text h (h' ∷ hs) = line_of h ++ 13 ∷ 10 ∷ head_text h' hs

head_text-print : (h : Str × Str) (hs : Headers) → head_text h hs ++ crlf ≡ print_headers (h ∷ hs)
unfolding head_text print_headers
head_text-print (name, value) [] = sym (append-nil _)
head_text-print (name, value) (h' ∷ hs) = simp (append_assoc, head_text-print h' hs)

-- A line ending with another line behind it is no blank line.
find-next :
    (c : ℕ) (t before after : Str)
    → (13 == c) ≡ false
    → find blank (c ∷ t) ≡ some (before, after)
    → find blank (13 ∷ 10 ∷ c ∷ t) ≡ some (13 ∷ 10 ∷ before, after)
find-next c t before after h e =
    let rest = find-pass 13 10 (10 ∷ 13 ∷ 10 ∷ []) (c ∷ t) before after refl e in
    unfold find strip_prefix in rw (find, strip_prefix, h, rest)

find-line :
    (l t before after : Str)
    → All IsClear l
    → find blank t ≡ some (before, after)
    → find blank (l ++ t) ≡ some (l ++ before, after)
find-line l t before after h e =
    find-prefix 13 (10 ∷ 13 ∷ 10 ∷ []) l t before after
      (All-weaken IsClear (λ c. (13 == c) ≡ false) l (λ c k. k.0) h) e

find-blank :
    (h : Str × Str) (hs : Headers) (body : Str)
    → All IsHeader (h ∷ hs)
    → find blank (print_headers (h ∷ hs) ++ (crlf ++ body)) ≡ some (head_text h hs, body)
unfolding head_text
find-blank h [] body all =
    let end =
      find-line (line_of h) (crlf ++ (crlf ++ body)) [] body (line_of-IsClear h all.0)
        (unfold find strip_prefix in refl) in
    rw (print-message h [] (crlf ++ body))
      (unfold print_headers in end ∙ rw (append-nil (line_of h)))
find-blank h (([], value) ∷ hs) body all = absurd all.1.0.0
find-blank h ((c ∷ name, value) ∷ hs) body all =
    let shape = print-message (c ∷ name, value) hs (crlf ++ body) in
    let found = rw shape at (find-blank (c ∷ name, value) hs body all.1) in
    let next = find-next c _ _ body all.1.0.0.1.0.0.0 found in
    rw (print-message h ((c ∷ name, value) ∷ hs) (crlf ++ body), shape)
      (find-line (line_of h) _ _ body (line_of-IsClear h all.0) next)

split_head_body-print :
    (h : Str × Str) (hs : Headers) (body : Str)
    → All IsHeader (h ∷ hs)
    → split_head_body (print_headers (h ∷ hs) ++ (crlf ++ body))
      ≡ some (print_headers (h ∷ hs), body)
unfolding split_head_body
split_head_body-print h hs body all =
    rw (split_head_body, find-blank h hs body all, head_text-print h hs)

-- The lines of the headers.
split-line : (l t : Str) → All IsClear l → split 10 (l ++ 13 ∷ 10 ∷ t) ≡ (l ++ 13 ∷ []) ∷ split 10 t
unfolding split
split-line [] t h = refl
split-line (c ∷ l) t h = rw (split, h.0.1, split-line l t h.1)

split_once-name :
    (name t : Str) → All IsNameByte name → split_once b':' (name ++ b':' ∷ t) ≡ some (name, t)
unfolding split_once
split_once-name [] t h = refl
split_once-name (c ∷ name) t h = rw (split_once, h.0.1, split_once-name name t h.1)

module _ (p : Platform) where
  -- A header without the white space around its name and its value.
  abbrev pub trimmed : Str × Str → Str × Str
  trimmed (name, value) = (p.unicode.trim name, p.unicode.trim (b' ' ∷ value))

  parse_header_line-one :
      (h : Str × Str) (entries : Headers)
      → IsHeader h
      → parse_header_line p (line_of h) entries ≡ entries ++ trimmed h ∷ []
  unfolding parse_header_line
  parse_header_line-one ([], value) entries h = absurd h.0
  parse_header_line-one (c ∷ name, value) entries h =
      let colon = split_once-name (c ∷ name) (b' ' ∷ value) h.0.1 in
      let line : line_of (c ∷ name, value) ≡ (c ∷ name) ++ b':' ∷ b' ' ∷ value =
        simp append_assoc in
      let found : split_once b':' (line_of (c ∷ name, value)) ≡ some (c ∷ name, b' ' ∷ value) =
        ap (split_once b':') line ∙ colon in
      rw (parse_header_line, h.0.0, found)

  parse_header_lines-print :
      (hs entries : Headers)
      → All IsHeader hs
      → parse_header_lines p (split 10 (print_headers hs)) entries ≡ entries ++ map trimmed hs
  unfolding parse_header_lines print_headers strip_last
  parse_header_lines-print [] entries all = unfold split in sym (append-nil entries)
  parse_header_lines-print (h ∷ hs) entries all =
      let shape = print-message h hs [] in
      let text : print_headers (h ∷ hs) ≡ line_of h ++ 13 ∷ 10 ∷ print_headers hs =
        simp append_assoc in
      rw
        (
          text,
          split-line (line_of h) (print_headers hs) (line_of-IsClear h all.0),
          parse_header_lines,
          strip_last-append 13 (line_of h),
          parse_header_line-one h entries all.0,
        )
        (parse_header_lines-print hs (entries ++ trimmed h ∷ []) all.1
          ∙ append_assoc entries (trimmed h ∷ []) (map trimmed hs))

  read-headers :
      (h : Str × Str) (hs : Headers) (body : Str)
      → All IsHeader (h ∷ hs)
      → p.from_utf8_lossy (print_headers (h ∷ hs)) ≡ print_headers (h ∷ hs)
      → split_message p (print_headers (h ∷ hs) ++ (crlf ++ body))
        ≡ some (map trimmed (h ∷ hs), body)
  unfolding split_message parse_headers
  read-headers h hs body all utf8 = rw (
    split_message,
    split_head_body-print h hs body all,
    utf8,
    parse_header_lines-print (h ∷ hs) [] all,
  )

  -- A built message is read back as the headers that were written, in their order and with their
  -- names and values trimmed, and the body that the message has, if no name or value of a header holds a line
  -- break, no name is empty, starts with white space or holds a colon, and the text of the headers is
  -- UTF-8.
  pub split_message-build_rfc5322 :
      (to_datetime : Str → Option DateTime) (e : Email) (default_domain : Str) (now : DateTime)
      (random_hex : Str)
      → All IsHeader
          (headers_for p to_datetime e (message_id_for e default_domain now random_hex) now)
      → p.from_utf8_lossy (
          print_headers
            (headers_for p to_datetime e (message_id_for e default_domain now random_hex) now))
        ≡ print_headers
            (headers_for p to_datetime e (message_id_for e default_domain now random_hex) now)
      → split_message p (build_rfc5322 p to_datetime e default_domain now random_hex).0
        ≡ some (
          map trimmed
              (headers_for p to_datetime e (message_id_for e default_domain now random_hex) now),
          message_body e,
        )
  unfolding build_rfc5322 headers_for
  split_message-build_rfc5322 to_datetime e default_domain now random_hex all utf8 =
      let msg_id = message_id_for e default_domain now random_hex in
      let headers = headers_for p to_datetime e msg_id now in
      ap (split_message p) (append_assoc (print_headers headers) crlf (message_body e))
      ∙ read-headers _ _ (message_body e) all utf8
