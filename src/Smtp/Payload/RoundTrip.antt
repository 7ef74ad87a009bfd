-- ===== src/Smtp/Payload/RoundTrip.antt =====
-- A payload that `converse` writes is read by `read_data` as the message that was sent, with every
-- line ending made CRLF (crates/jmapsmtp/src/smtp_out.rs and smtp_in.rs).
use jmapsmtp.Prelude.{
  text_compare, ℕ, zero, suc, ◌<◌, Bool, true, false, List, [], ◌∷◌, ◌++◌, Str, codes, ◌==◌, ◌&&◌,
  ◌||◌, if◌then◌else◌, ◌≡◌, refl, ap, sym, ◌∙◌, arith, length, is_empty, text_eq, text_eq_iff,
  All-append, Bool-cases, inl, inr, ◌⊎◌, append_assoc, append-nil, length-append,
}
use jmapsmtp.Smtp.{crlf, lf, lines_of}
use jmapsmtp.Smtp.Payload.{
  strip_last, line_body, unstuff, read_data, stuff_from, dot_stuff, ends_with, payload,
}
use jmapsmtp.Smtp.Payload.Lines.{
  IsOneLine, lines_of-append, lines_of-one, stuff_from-append, stuff_from_line, strip_last-append,
  ends_with-append, ends_with-one,
}

-- A line of a message as it arrives.
unfoldable pub canonical_line : Str → Str
unfolding ends_with line_body
canonical_line l = (if ends_with lf l then line_body l else l) ++ crlf

unfoldable pub canonical_lines : List Str → Str
canonical_lines [] = []
canonical_lines (l ∷ ls) = canonical_line l ++ canonical_lines ls

-- A message as it arrives: its lines, or one empty line for the empty message.
unfoldable pub canonical : Str → Str
unfolding lines_of canonical_lines
canonical raw = if is_empty raw then crlf else canonical_lines (lines_of raw)

-- The body of a stuffed line is no terminator, and without the dot it is the body of the line.
unstuff-stuffed :
    (p : Str)
    → IsOneLine p
    → (text_eq (strip_last 13 (stuff_from true p)) (codes ".") ≡ false)
      × (unstuff (strip_last 13 (stuff_from true p)) ≡ strip_last 13 p)
unfolding strip_last unstuff stuff_from
unstuff-stuffed [] h = (ground (arith, text_eq_iff [] (codes ".")), refl)
unstuff-stuffed (c ∷ []) h = rw (stuff_from_line c [] h) (
  ground (
    arith,
    text_eq_iff (c ∷ []) (codes "."),
    text_eq_iff [] (codes "."),
    text_eq_iff (b'.' ∷ c ∷ []) (codes "."),
  ),
  ground arith,
)
unstuff-stuffed (c ∷ d ∷ p) h = rw (stuff_from_line c (d ∷ p) h) (
  ground (
    arith,
    text_eq_iff (c ∷ strip_last 13 (d ∷ p)) (codes "."),
    text_eq_iff (b'.' ∷ c ∷ strip_last 13 (d ∷ p)) (codes "."),
  ),
  ground arith,
)

read_data-stuffed :
    (p : Str) (ls : List Str)
    → IsOneLine p
    → read_data ((stuff_from true p ++ lf ∷ []) ∷ ls)
      ≡ (strip_last 13 p ++ crlf ++ (read_data ls).0, (read_data ls).1)
unfolding read_data line_body
read_data-stuffed p ls h =
    let (kept, body) = unstuff-stuffed p h in
    rw (strip_last-append lf (stuff_from true p), kept, body) refl

stuff_from-IsOneLine : (b : Bool) (p : Str) → IsOneLine p → IsOneLine (stuff_from b p)
unfolding stuff_from
stuff_from-IsOneLine b [] h = tt
stuff_from-IsOneLine b (c ∷ p) h = elim (Bool-cases (b && c == b'.')) [
  | inl e ↦ rw e (refl, (h.0, stuff_from-IsOneLine (c == lf) p h.1))
  | inr e ↦ rw e (h.0, stuff_from-IsOneLine (c == lf) p h.1)
]

-- A stream that starts with a stuffed line.
read-line :
    (p s : Str)
    → IsOneLine p
    → read_data (lines_of (stuff_from true p ++ lf ∷ s))
      ≡ (strip_last 13 p ++ crlf ++ (read_data (lines_of s)).0, (read_data (lines_of s)).1)
read-line p s h =
    ap read_data (lines_of-append (stuff_from true p) s (stuff_from-IsOneLine true p h))
    ∙ read_data-stuffed p (lines_of s) h

-- What follows the lines: the terminator and the rest of the stream.
abbrev after_lines : Str → Str
after_lines tail = codes "." ++ crlf ++ tail

read-terminator : (tail : Str) → read_data (lines_of (after_lines tail)) ≡ ([], lines_of tail)
unfolding read_data line_body lines_of strip_last text_eq
read-terminator tail = ground (arith, text_eq_iff (codes ".") (codes "."))

abbrev missing_end : Str → Str
missing_end s = if is_empty s || ends_with lf s then [] else crlf

abbrev stream : Str → Str → Str
stream s tail = stuff_from true s ++ missing_end s ++ after_lines tail

first_line : (s : Str) → IsOneLine s ⊎ ((p : Str) × (t : Str) × (s ≡ p ++ lf ∷ t) × IsOneLine p)
first_line [] = inl tt
first_line (c ∷ s) = elim (Bool-cases (c == lf)) [
  | inl e ↦ let same : c ≡ lf = ground (arith, e) in inr ([], s, ap (λ x. x ∷ s) same, tt)
  | inr e ↦ elim (first_line s) [
    | inl h ↦ inl (e, h)
    | inr (p, t, eq, h) ↦ inr (c ∷ p, t, ap (λ x. c ∷ x) eq, (e, h))
  ]
]

stuff_from-cr : (b : Bool) (p : Str) → stuff_from b (p ++ 13 ∷ []) ≡ stuff_from b p ++ 13 ∷ []
unfolding stuff_from
stuff_from-cr true [] = refl
stuff_from-cr false [] = refl
stuff_from-cr b (c ∷ p) = elim (Bool-cases (b && c == b'.')) [
  | inl e ↦ rw (e, stuff_from-cr (c == lf) p) refl
  | inr e ↦ rw (e, stuff_from-cr (c == lf) p) refl
]

append-IsOneLine : (p : Str) → IsOneLine p → IsOneLine (p ++ 13 ∷ [])
append-IsOneLine p h = All-append (λ c. (c == lf) ≡ false) p (13 ∷ []) h (refl, tt)

-- The last line, whose ending the sender adds.
read-last :
    (c : ℕ) (p tail : Str)
    → IsOneLine (c ∷ p)
    → read_data (lines_of (stream (c ∷ p) tail))
      ≡ (canonical_lines (lines_of (c ∷ p)), lines_of tail)
unfolding canonical_lines canonical_line
read-last c p tail h =
    let s = c ∷ p in
    let shape : stream s tail ≡ stuff_from true (s ++ 13 ∷ []) ++ lf ∷ after_lines tail =
      rw (ends_with-one c p h, stuff_from-cr true s)
        (append_assoc (stuff_from true s) crlf (after_lines tail)
          ∙ sym (append_assoc (stuff_from true s) (13 ∷ []) (lf ∷ after_lines tail))) in
    rw
      (
        shape,
        read-line (s ++ 13 ∷ []) (after_lines tail) (append-IsOneLine s h),
        read-terminator tail,
        strip_last-append 13 s,
        lines_of-one c p h,
        ends_with-one c p h,
        append-nil,
      )
      refl

is_empty-line : (p t : Str) → is_empty (p ++ lf ∷ t) ≡ false
is_empty-line [] t = refl
is_empty-line (c ∷ p) t = refl

stream-append :
    (p t tail : Str) → stream (p ++ lf ∷ t) tail ≡ stuff_from true p ++ lf ∷ stream t tail
stream-append p t tail =
    let line = stuff_from true p in
    let rest = stuff_from true t in
    let end = missing_end t in
    rw (stuff_from-append true p t, ends_with-append p t, is_empty-line p t)
      (append_assoc (line ++ lf ∷ rest) end (after_lines tail)
        ∙ append_assoc line (lf ∷ rest) (end ++ after_lines tail)
        ∙ ap (λ x. line ++ lf ∷ x) (sym (append_assoc rest end (after_lines tail))))

canonical_line-end : (p : Str) → canonical_line (p ++ lf ∷ []) ≡ strip_last 13 p ++ crlf
unfolding canonical_line line_body
canonical_line-end p = rw (ends_with-append p [], strip_last-append lf p) refl

read-one_line :
    (s tail : Str)
    → IsOneLine s
    → read_data (lines_of (stream s tail)) ≡ (canonical_lines (lines_of s), lines_of tail)
unfolding stuff_from lines_of canonical_lines
read-one_line [] tail one = read-terminator tail
read-one_line (c ∷ p) tail one = read-last c p tail one

read-stream :
    (fuel : ℕ) (s tail : Str)
    → length s < fuel
    → read_data (lines_of (stream s tail)) ≡ (canonical_lines (lines_of s), lines_of tail)
unfolding canonical_lines
read-stream zero s tail h = absurd (omega arith)
read-stream (suc fuel) s tail h = elim (first_line s) [
  | inr (p, t, e, one) ↦
      let shorter : length t < fuel = omega (arith, ap length e, length-append p (lf ∷ t)) in
      rw
        (
          e,
          stream-append p t tail,
          read-line p (stream t tail) one,
          read-stream fuel t tail shorter,
          lines_of-append p t one,
          canonical_line-end p,
          append_assoc,
        )
        refl
  | inl one ↦ read-one_line s tail one
]

payload-stream : (c : ℕ) (raw tail : Str) → payload (c ∷ raw) ++ tail ≡ stream (c ∷ raw) tail
unfolding payload dot_stuff
payload-stream c raw tail =
    let body = stuff_from true (c ∷ raw) ++ missing_end (c ∷ raw) in
    append_assoc (body ++ codes ".") crlf tail ∙ append_assoc body (codes ".") (crlf ++ tail)

read-empty : (tail : Str) → read_data (lines_of (payload [] ++ tail)) ≡ (crlf, lines_of tail)
unfolding payload dot_stuff stuff_from ends_with lines_of read_data line_body strip_last unstuff
    text_eq text_compare
read-empty tail = refl

-- The payload of a message, and whatever follows it on the stream, is read as the message with its
-- line endings made CRLF, and what follows is left in the stream.
pub read_data-payload :
    (raw tail : Str) → read_data (lines_of (payload raw ++ tail)) ≡ (canonical raw, lines_of tail)
unfolding canonical
read_data-payload [] tail = read-empty tail
read_data-payload (c ∷ raw) tail =
    ap (λ s. read_data (lines_of s)) (payload-stream c raw tail)
    ∙ read-stream (suc (length (c ∷ raw))) (c ∷ raw) tail (omega arith)
