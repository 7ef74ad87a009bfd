-- ===== src/Autocrypt/Headers.antt =====
-- What a header that is added leaves of a message (crates/jmapsmtp/src/autocrypt.rs).
use jmapsmtp.Prelude.{
  ℕ, Bool, true, false, none, some, [], ◌∷◌, ◌++◌, Str, ◌==◌, ==_iff, ◌&&◌, if◌then◌else◌, ◌≡◌,
  refl, sym, ap, ◌∙◌, arith, All, strip_prefix, Bool-cases, Option-cases, inl, inr, append_assoc,
}
use jmapsmtp.Smtp.{crlf}
use jmapsmtp.Mime.{find}
use jmapsmtp.Autocrypt.{separator, insert_header}

-- A byte that ends no line.
abbrev pub IsPlain : ℕ → Type 0
IsPlain c = ((c == 13) ≡ false) × ((c == 10) ≡ false)

-- The text of a header, without its line end.
abbrev pub IsLine : Str → Type 0
IsLine [] = ⊥
IsLine (c ∷ line) = IsPlain c × All IsPlain line

-- The separator is the next four bytes.
strip_separator :
    (a b c d : ℕ) (s : Str)
    → strip_prefix separator (a ∷ b ∷ c ∷ d ∷ s)
      ≡ (if a == 13 && b == 10 && c == 13 && d == 10 then some s else none)
unfolding strip_prefix
strip_separator a b c d s = ground arith

-- What is found stands between what is in front of it and what is behind.
find-behind :
    (needle s before after : Str)
    → find needle s ≡ some (before, after)
    → (c : ℕ) → strip_prefix needle (c ∷ s) ≡ none
    → find needle (c ∷ s) ≡ some (c ∷ before, after)
unfolding find
find-behind needle s before after h c e = rw (find, e, h) refl

strip-plain : (c : ℕ) (s : Str) → (c == 13) ≡ false → strip_prefix separator (c ∷ s) ≡ none
unfolding strip_prefix
strip-plain c s h = ground arith

strip-line : (x : ℕ) (s : Str) → (x == 13) ≡ false → strip_prefix separator (13 ∷ 10 ∷ x ∷ s) ≡ none
unfolding strip_prefix
strip-line x s h = ground arith

find-separator : (body : Str) → find separator (separator ++ body) ≡ some ([], body)
unfolding find strip_prefix
find-separator body = refl

find-plain :
    (line body : Str)
    → All IsPlain line
    → find separator (line ++ (separator ++ body)) ≡ some (line, body)
find-plain [] body h = find-separator body
find-plain (c ∷ line) body h =
    find-behind separator (line ++ (separator ++ body)) line body (find-plain line body h.1) c
      (strip-plain c (line ++ (separator ++ body)) h.0.0)

-- Behind the line end of the last header comes the new one.
find-line :
    (x : ℕ) (line body : Str)
    → IsLine (x ∷ line)
    → find separator (crlf ++ ((x ∷ line) ++ (separator ++ body))) ≡ some (crlf ++ x ∷ line, body)
find-line x line body h =
    let rest = (x ∷ line) ++ (separator ++ body) in
    find-behind separator (10 ∷ rest) (10 ∷ x ∷ line) body
      (find-behind separator rest (x ∷ line) body (find-plain (x ∷ line) body h) 10
        (strip-plain 10 rest refl))
      13 (strip-line x (line ++ (separator ++ body)) h.0.0)

strip_prefix-append : (p s rest : Str) → strip_prefix p s ≡ some rest → s ≡ p ++ rest
unfolding strip_prefix
strip_prefix-append [] s rest h = cc
strip_prefix-append (a ∷ p) [] rest h = cc
strip_prefix-append (a ∷ p) (c ∷ s) rest h = elim (Bool-cases (a == c)) [
  | inr e ↦ let nothing : none ≡ some rest = rw (strip_prefix, e) at h in cc
  | inl e ↦
      let same : a ≡ c = (==_iff a c).0 e in
      cc (same, strip_prefix-append p s rest (rw (strip_prefix, e) at h))
]

-- What is found stands between what is in front of it and what is behind.
find-append :
    (needle s before after : Str)
    → find needle s ≡ some (before, after)
    → s ≡ before ++ (needle ++ after)
unfolding find
find-append needle [] before after h = elim (Option-cases (strip_prefix needle [])) [
  | inl e ↦ let nothing : none ≡ some (before, after) = rw (find, e) at h in cc
  | inr (rest, e) ↦
      let here : some ([], rest) ≡ some (before, after) = rw (find, e) at h in
      cc (here, strip_prefix-append needle [] rest e)
]
find-append needle (c ∷ s) before after h = elim (Option-cases (strip_prefix needle (c ∷ s))) [
  | inr (rest, e) ↦
      let here : some ([], rest) ≡ some (before, after) = rw (find, e) at h in
      cc (here, strip_prefix-append needle (c ∷ s) rest e)
  | inl e ↦ elim (Option-cases (find needle s)) [
    | inl n ↦ let nothing : none ≡ some (before, after) = rw (find, e, n) at h in cc
    | inr ((b, a), n) ↦
        let there : some (c ∷ b, a) ≡ some (before, after) = rw (find, e, n) at h in
        cc (there, find-append needle s b a n)
  ]
]

tested :
    (t : Bool) (s s' : Str)
    → (if t then some s else none) ≡ none
    → (if t then some s' else none) ≡ none
tested true s s' h = cc
tested false s s' h = refl

-- In front of the new header nothing is found that was not found before.
strip-early :
    (c x : ℕ) (head tail body : Str)
    → (x == 13) ≡ false
    → strip_prefix separator (c ∷ (head ++ (separator ++ body))) ≡ none
    → strip_prefix separator (c ∷ (head ++ (crlf ++ x ∷ tail))) ≡ none
strip-early c x [] tail body h e = strip_separator c 13 10 x tail ∙ ground arith
strip-early c x (a ∷ []) tail body h e =
    strip_separator c a 13 10 (x ∷ tail)
    ∙ tested (c == 13 && a == 10 && true && true) (13 ∷ 10 ∷ body) (x ∷ tail)
        (sym (strip_separator c a 13 10 (13 ∷ 10 ∷ body)) ∙ e)
strip-early c x (a ∷ b ∷ []) tail body h e = strip_separator c a b 13 (10 ∷ x ∷ tail) ∙ ground arith
strip-early c x (a ∷ b ∷ d ∷ head) tail body h e =
    strip_separator c a b d (head ++ (crlf ++ x ∷ tail))
    ∙ tested (c == 13 && a == 10 && b == 13 && d == 10) (head ++ (separator ++ body))
        (head ++ (crlf ++ x ∷ tail))
        (sym (strip_separator c a b d (head ++ (separator ++ body))) ∙ e)

find-nothing : find separator [] ≡ none
unfolding find strip_prefix
find-nothing = refl

find-inserted :
    (raw head body : Str) (x : ℕ) (line : Str)
    → IsLine (x ∷ line)
    → find separator raw ≡ some (head, body)
    → find separator (head ++ (crlf ++ ((x ∷ line) ++ (separator ++ body))))
      ≡ some (head ++ (crlf ++ x ∷ line), body)
unfolding find
find-inserted [] head body x line l h =
    let nothing : none ≡ some (head, body) = sym find-nothing ∙ h in cc
find-inserted (c ∷ s) head body x line l h = elim (Option-cases (strip_prefix separator (c ∷ s))) [
  | inr (rest, e) ↦
      let here : some ([], rest) ≡ some (head, body) = rw (find, e) at h in
      let no_head : [] ≡ head = cc here in rw (← no_head) (find-line x line body l)
  | inl e ↦ elim (Option-cases (find separator s)) [
    | inl n ↦ let nothing : none ≡ some (head, body) = rw (find, e, n) at h in cc
    | inr ((b, a), n) ↦
        let there : some (c ∷ b, a) ≡ some (head, body) = rw (find, e, n) at h in
        let longer : c ∷ b ≡ head = cc there in
        let same : a ≡ body = cc there in
        let parts = find-append separator s b a n in
        let found = find-inserted s b body x line l (n ∙ ap (λ t. some (b, t)) same) in
        rw (← longer) (
          find-behind separator (b ++ (crlf ++ ((x ∷ line) ++ (separator ++ body))))
            (b ++ (crlf ++ x ∷ line)) body found c
            (strip-early c x b (line ++ (separator ++ body)) a l.0.0 (rw (parts) at e)))
  ]
]

-- A header that is added stands last in its block: the headers in front of it and the body behind the
-- block are as they were. The header is a line and not empty, and the message has a separator.
pub find-insert_header :
    (raw head body line : Str)
    → IsLine line
    → find separator raw ≡ some (head, body)
    → find separator (insert_header raw (line ++ crlf)) ≡ some (head ++ crlf ++ line, body)
unfolding insert_header
find-insert_header raw head body [] l h = absurd l
find-insert_header raw head body (x ∷ line) l h =
    let given : insert_header raw ((x ∷ line) ++ crlf)
        ≡ head ++ crlf ++ ((x ∷ line) ++ crlf) ++ crlf ++ body =
      rw (insert_header, h) refl in
    let right : head ++ crlf ++ ((x ∷ line) ++ crlf) ++ crlf ++ body
        ≡ head ++ (crlf ++ ((x ∷ line) ++ (separator ++ body))) =
      simp (append_assoc) in
    ap (find separator) (given ∙ right)
    ∙ find-inserted raw head body x line l h
    ∙ ap (λ t. some (t, body)) (sym (append_assoc head crlf (x ∷ line)))
