-- ===== src/GoMux/Clean.antt =====
-- A cleaned path has no segment that climbs (crates/jmapsmtp/src/gomux.rs).
use jmapsmtp.Prelude.{
  text_compare, ℕ, Bool, true, false, List, [], ◌∷◌, ◌++◌, Str, codes, ◌==◌, not, ◌&&◌,
  if◌then◌else◌, ◌≡◌, refl, arith, text_eq, text_eq_iff, split, join, All, All-append, inl, inr,
  ◌⊎◌,
}
use jmapsmtp.Smtp.Payload.{ends_with}
use jmapsmtp.GoMux.{slash, clean_segments, rooted, lexical_clean, clean_rooted, clean_path}
use jmapsmtp.GoMux.Segments.{
  IsSegment, clean_segments-IsSegment, split-IsSlashFree, All-climbs, split-join, split-join-slash,
}

ends_with-append : (b c : ℕ) (xs ys : Str) → ends_with b (xs ++ c ∷ ys) ≡ ends_with b (c ∷ ys)
unfolding ends_with
ends_with-append b c [] ys = refl
ends_with-append b c (x ∷ []) ys = refl
ends_with-append b c (x ∷ y ∷ xs) ys = ends_with-append b c (y ∷ xs) ys

join-cons :
    (s : Str) (out : List Str)
    → All IsSegment (s ∷ out)
    → (c : ℕ) × (r : Str) × (join (slash ∷ []) (s ∷ out) ≡ c ∷ r)
unfolding join
join-cons [] out h = absurd (ground (arith, h.0.1))
join-cons (c ∷ s) [] h = (c, s, refl)
join-cons (c ∷ s) (t ∷ out) h = (c, (s ++ slash ∷ []) ++ join (slash ∷ []) (t ∷ out), refl)

rooted-ne-slash :
    (s : Str) (out : List Str)
    → All IsSegment (s ∷ out)
    → text_eq (rooted (s ∷ out)) (slash ∷ []) ≡ false
unfolding rooted
rooted-ne-slash s out h =
    let (c, r, e) = join-cons s out h in
    rw e (ground (arith, text_eq_iff (slash ∷ c ∷ r) (slash ∷ [])))

-- The shape of a cleaned path: rooted, with a slash behind it if the path had one.
abbrev with_slash : Bool → List Str → Str
with_slash b out =
    if b && not (text_eq (rooted out) (slash ∷ [])) then rooted out ++ slash ∷ [] else rooted out

with_slash-nil : (b : Bool) → with_slash b [] ≡ slash ∷ []
unfolding rooted text_eq text_compare
with_slash-nil true = refl
with_slash-nil false = refl

segments : Str → List Str
segments p = clean_segments [] (split slash p)

segments-IsSegment : (p : Str) → All IsSegment (segments p)
unfolding segments
segments-IsSegment p = clean_segments-IsSegment [] (split slash p) tt (split-IsSlashFree p)

clean_rooted-with_slash : (p : Str) → clean_rooted p ≡ with_slash (ends_with slash p) (segments p)
unfolding clean_rooted lexical_clean segments
clean_rooted-with_slash p = refl

clean_path-cases :
    (p : Str) → (clean_path p ≡ slash ∷ []) ⊎ ((q : Str) × (clean_path p ≡ clean_rooted q))
unfolding clean_path
clean_path-cases [] = inl refl
clean_path-cases (c ∷ s) = inr (if c == slash then c ∷ s else slash ∷ c ∷ s, refl)

split-rooted :
    (out : List Str)
    → All IsSegment out
    → All (λ seg. text_eq seg (codes "..") ≡ false) (split slash (rooted out))
unfolding rooted split
split-rooted [] h =
    (ground (arith, text_eq_iff [] (codes "..")), (ground (arith, text_eq_iff [] (codes "..")), tt))
split-rooted (s ∷ out) h =
    (ground (arith, text_eq_iff [] (codes "..")), rw (split-join s out h) (All-climbs (s ∷ out) h))

-- A segment that does not climb to the parent.
abbrev pub StaysBelow : Str → Type 0
StaysBelow seg = text_eq seg (codes "..") ≡ false

split-with_slash :
    (b : Bool) (out : List Str)
    → All IsSegment out
    → All StaysBelow (split slash (with_slash b out))
unfolding rooted split
split-with_slash b [] h = rw (with_slash-nil b) (split-rooted [] tt)
split-with_slash false (s ∷ out) h = split-rooted (s ∷ out) h
split-with_slash true (s ∷ out) h =
    let empty : StaysBelow [] = ground (arith, text_eq_iff [] (codes "..")) in
    rw (rooted-ne-slash s out h, split-join-slash s out h)
      (empty, All-append StaysBelow (s ∷ out) ([] ∷ []) (All-climbs (s ∷ out) h) (empty, tt))

-- No segment of a cleaned path is `..`, whatever the path was.
pub clean_path-StaysBelow : (p : Str) → All StaysBelow (split slash (clean_path p))
unfolding rooted
clean_path-StaysBelow p = elim (clean_path-cases p) [
  | inl e ↦ rw e (split-rooted [] tt)
  | inr (q, e) ↦
      rw (e, clean_rooted-with_slash q)
        (split-with_slash (ends_with slash q) (segments q) (segments-IsSegment q))
]
