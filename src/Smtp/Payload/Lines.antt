-- ===== src/Smtp/Payload/Lines.antt =====
-- Lines of a payload: how they are stuffed, and how a stream falls into them.
use jmapsmtp.Prelude.{
  ℕ, Bool, true, false, [], ◌∷◌, ◌++◌, Str, ◌==◌, ◌&&◌, ◌||◌, if◌then◌else◌, ◌≡◌, refl, ap, arith,
  is_empty, All, Bool-cases, inl, inr,
}
use jmapsmtp.Smtp.{lf, lines_of}
use jmapsmtp.Smtp.Payload.{strip_last, stuff_from, ends_with}

abbrev pub IsOneLine : Str → Type 0
IsOneLine = All (λ c. (c == lf) ≡ false)

pub lines_of-append :
    (p s : Str) → IsOneLine p → lines_of (p ++ lf ∷ s) ≡ (p ++ lf ∷ []) ∷ lines_of s
unfolding lines_of
lines_of-append [] s h = refl
lines_of-append (c ∷ p) s h = rw (h.0, lines_of-append p s h.1) refl

pub lines_of-one : (c : ℕ) (p : Str) → IsOneLine (c ∷ p) → lines_of (c ∷ p) ≡ (c ∷ p) ∷ []
unfolding lines_of
lines_of-one c [] h = rw h.0 refl
lines_of-one c (d ∷ p) h = rw (h.0, lines_of-one d p h.1) refl

pub stuff_from-append :
    (b : Bool) (p s : Str) → stuff_from b (p ++ lf ∷ s) ≡ stuff_from b p ++ lf ∷ stuff_from true s
unfolding stuff_from
stuff_from-append true [] s = refl
stuff_from-append false [] s = refl
stuff_from-append b (c ∷ p) s = elim (Bool-cases (b && c == b'.')) [
  | inl e ↦ rw (e, stuff_from-append (c == lf) p s) refl
  | inr e ↦ rw (e, stuff_from-append (c == lf) p s) refl
]

pub stuff_from-one : (p : Str) → IsOneLine p → stuff_from false p ≡ p
unfolding stuff_from
stuff_from-one [] h = refl
stuff_from-one (c ∷ p) h = rw (h.0, stuff_from-one p h.1) refl

-- The first byte of a line decides.
pub stuff_from_line :
    (c : ℕ) (p : Str)
    → IsOneLine (c ∷ p)
    → stuff_from true (c ∷ p) ≡ (if c == b'.' then b'.' ∷ c ∷ p else c ∷ p)
unfolding stuff_from
stuff_from_line c p h = rw (h.0, stuff_from-one p h.1) refl

pub strip_last-append : (b : ℕ) (p : Str) → strip_last b (p ++ b ∷ []) ≡ p
unfolding strip_last
strip_last-append b [] = ground arith
strip_last-append b (c ∷ []) = ground arith
strip_last-append b (c ∷ d ∷ p) = ap (λ t. c ∷ t) (strip_last-append b (d ∷ p))

pub ends_with-append : (p t : Str) → ends_with lf (p ++ lf ∷ t) ≡ (is_empty t || ends_with lf t)
unfolding ends_with
ends_with-append [] [] = refl
ends_with-append [] (c ∷ t) = refl
ends_with-append (c ∷ []) t = ends_with-append [] t
ends_with-append (c ∷ d ∷ p) t = ends_with-append (d ∷ p) t

pub ends_with-one : (c : ℕ) (p : Str) → IsOneLine (c ∷ p) → ends_with lf (c ∷ p) ≡ false
unfolding ends_with
ends_with-one c [] h = h.0
ends_with-one c (d ∷ p) h = ends_with-one d p h.1
