-- ===== src/GoMux/Segments.antt =====
-- The segments of a cleaned path (crates/jmapsmtp/src/gomux.rs).
use jmapsmtp.Prelude.{
  ℕ, Bool, true, false, List, [], ◌∷◌, ◌++◌, Str, codes, ◌==◌, not, ◌&&◌, ◌||◌, is_empty, ◌≡◌, refl,
  ap, sym, ◌∙◌, arith, text_eq, split, join, prepend, All, All-append, Bool-cases, inl, inr,
  append_assoc, append-nil,
}
use jmapsmtp.GoMux.{slash, pop, visit, clean_segments}

-- A segment that a cleaned path can have: with no slash, not empty, and neither `.` nor `..`.
abbrev pub IsSlashFree : Str → Type 0
IsSlashFree = All (λ c. (c == slash) ≡ false)

abbrev pub is_plain : Str → Bool
is_plain seg = not (is_empty seg) && not (text_eq seg (codes ".")) && not (text_eq seg (codes ".."))

abbrev pub IsSegment : Str → Type 0
IsSegment seg = IsSlashFree seg × (is_plain seg ≡ true)

pub pop-IsSegment : (out : List Str) → All IsSegment out → All IsSegment (pop out)
unfolding pop
pop-IsSegment [] h = tt
pop-IsSegment (s ∷ []) h = tt
pop-IsSegment (s ∷ t ∷ out) h = (h.0, pop-IsSegment (t ∷ out) h.1)

pub visit-IsSegment :
    (out : List Str) (seg : Str)
    → All IsSegment out
    → IsSlashFree seg
    → All IsSegment (visit out seg)
unfolding visit
visit-IsSegment out seg h free = elim (Bool-cases (is_empty seg || text_eq seg (codes "."))) [
  | inl e ↦ rw (e, visit) h
  | inr e ↦ elim (Bool-cases (text_eq seg (codes ".."))) [
    | inl d ↦ rw (e, d, visit) (pop-IsSegment out h)
    | inr d ↦ rw (e, d, visit) (All-append IsSegment out (seg ∷ []) h ((free, ground arith), tt))
  ]
]

pub clean_segments-IsSegment :
    (out segs : List Str)
    → All IsSegment out
    → All IsSlashFree segs
    → All IsSegment (clean_segments out segs)
unfolding clean_segments
clean_segments-IsSegment out [] h free = h
clean_segments-IsSegment out (seg ∷ segs) h free =
    clean_segments-IsSegment (visit out seg) segs (visit-IsSegment out seg h free.0) free.1

pub prepend-IsSlashFree :
    (c : ℕ) (ps : List Str)
    → (c == slash) ≡ false
    → All IsSlashFree ps
    → All IsSlashFree (prepend c ps)
prepend-IsSlashFree c [] e h = ((e, tt), tt)
prepend-IsSlashFree c (p ∷ ps) e h = ((e, h.0), h.1)

pub split-IsSlashFree : (s : Str) → All IsSlashFree (split slash s)
unfolding split
split-IsSlashFree [] = (tt, tt)
split-IsSlashFree (c ∷ s) = elim (Bool-cases (c == slash)) [
  | inl e ↦ rw e (tt, split-IsSlashFree s)
  | inr e ↦ rw e (prepend-IsSlashFree c (split slash s) e (split-IsSlashFree s))
]

-- No plain segment climbs.
pub All-climbs :
    (out : List Str) → All IsSegment out → All (λ seg. text_eq seg (codes "..") ≡ false) out
All-climbs [] h = tt
All-climbs (s ∷ out) h = (ground (arith, h.0.1), All-climbs out h.1)

-- Splitting what was joined.
pub split-append : (p s : Str) → IsSlashFree p → split slash (p ++ slash ∷ s) ≡ p ∷ split slash s
unfolding split
split-append [] s h = refl
split-append (c ∷ p) s h = rw (h.0, split-append p s h.1) refl

pub split-one : (p : Str) → IsSlashFree p → split slash p ≡ p ∷ []
unfolding split
split-one [] h = refl
split-one (c ∷ p) h = rw (h.0, split-one p h.1) refl

-- The segments of a path of segments, and of one with a slash behind it.
pub split-join :
    (s : Str) (out : List Str)
    → All IsSegment (s ∷ out)
    → split slash (join (slash ∷ []) (s ∷ out)) ≡ s ∷ out
unfolding join
split-join s [] h = split-one s h.0.0
split-join s (t ∷ out) h =
    ap (split slash) (append_assoc s (slash ∷ []) (join (slash ∷ []) (t ∷ out)))
    ∙ split-append s (join (slash ∷ []) (t ∷ out)) h.0.0
    ∙ ap (λ r. s ∷ r) (split-join t out h.1)

pub split-join-slash :
    (s : Str) (out : List Str)
    → All IsSegment (s ∷ out)
    → split slash (join (slash ∷ []) (s ∷ out) ++ slash ∷ []) ≡ (s ∷ out) ++ [] ∷ []
unfolding join split
split-join-slash s [] h = split-append s [] h.0.0
split-join-slash s (t ∷ out) h =
    let rest = join (slash ∷ []) (t ∷ out) in
    ap (split slash) (
      append_assoc (s ++ slash ∷ []) rest (slash ∷ [])
      ∙ append_assoc s (slash ∷ []) (rest ++ slash ∷ []))
    ∙ split-append s (rest ++ slash ∷ []) h.0.0
    ∙ ap (λ r. s ∷ r) (split-join-slash t out h.1)

-- Plain segments are kept as they are.
pub clean_segments-plain :
    (out segs : List Str) → All IsSegment segs → clean_segments out segs ≡ out ++ segs
unfolding clean_segments visit
clean_segments-plain out [] h = sym (append-nil out)
clean_segments-plain out (seg ∷ segs) h =
    let kept : visit out seg ≡ out ++ seg ∷ [] = ground (arith, h.0.1) in
    rw (kept, clean_segments-plain (out ++ seg ∷ []) segs h.1) (append_assoc out (seg ∷ []) segs)
