-- ===== src/Methods/Query/Pages.antt =====
-- The pages of `Email/query`.
use jmapsmtp.Prelude.{
  ℕ, zero, suc, ◌+◌, ◌-◌, ◌*◌, ◌%◌, ◌^◌, ◌≤◌, ◌<◌, true, Option, none, some, List, [], ◌∷◌, ◌++◌,
  Str, ltb, leb, ◌≡◌, refl, ap, sym, ◌∙◌, arith, take, drop, length, min, Bool-cases, inl, inr,
}
use jmapsmtp.Methods.Query.{page, page_end, slice}

length-drop {ℓ} : {A : Type ℓ} (n : ℕ) (xs : List A) → length (drop n xs) ≡ length xs - n
length-drop zero xs = omega arith
length-drop (suc n) [] = omega arith
length-drop (suc n) (x ∷ xs) = length-drop n xs ∙ omega arith

drop-all {ℓ} : {A : Type ℓ} (n : ℕ) (xs : List A) → length xs ≤ n → drop n xs ≡ []
drop-all zero [] h = refl
drop-all zero (x ∷ xs) h = absurd (omega arith)
drop-all (suc n) [] h = refl
drop-all (suc n) (x ∷ xs) h = drop-all n xs (omega arith)

take-beyond {ℓ} :
    {A : Type ℓ} (n m : ℕ) (xs : List A) → length xs ≤ n → length xs ≤ m → take n xs ≡ take m xs
take-beyond zero zero xs h k = refl
take-beyond zero (suc m) [] h k = refl
take-beyond (suc n) zero [] h k = refl
take-beyond (suc n) (suc m) [] h k = refl
take-beyond (suc n) (suc m) (x ∷ xs) h k =
    ap (λ t. x ∷ t) (take-beyond n m xs (omega arith) (omega arith))
take-beyond zero (suc m) (x ∷ xs) h k = absurd (omega arith)
take-beyond (suc n) zero (x ∷ xs) h k = absurd (omega arith)

take-nil {ℓ} : {A : Type ℓ} (n : ℕ) → take {A = A} n [] ≡ []
take-nil zero = refl
take-nil (suc n) = refl

page_end_lem :
    (start limit total : ℕ)
    → 0 < limit
    → start + limit < 2 ^ 64
    → page_end start limit total ≡ min (start + limit) total
unfolding page_end
page_end_lem start limit total h fits =
    let e : (start + limit) % 2 ^ 64 ≡ start + limit = omega arith in
    let positive : ltb 0 limit ≡ true = ground arith in rw (positive, e) refl

slice_lem {ℓ} :
    {A : Type ℓ} (start end : ℕ) (xs : List A)
    → start ≤ end
    → end ≤ length xs
    → slice start end xs ≡ some (take (end - start) (drop start xs))
unfolding slice
slice_lem start end xs h k =
    let a : leb start end ≡ true = ground arith in
    let b : leb end (length xs) ≡ true = ground arith in rw (a, b) refl

take-min {ℓ} :
    {A : Type ℓ} (start limit : ℕ) (xs : List A)
    → take (min (start + limit) (length xs) - start) (drop start xs) ≡ take limit (drop start xs)
take-min start limit xs = elim (Bool-cases (leb (start + limit) (length xs))) [
  | inl e ↦
      let same : min (start + limit) (length xs) - start ≡ limit = ground arith in rw same refl
  | inr e ↦
      take-beyond (min (start + limit) (length xs) - start) limit (drop start xs)
        (ground (arith, length-drop start xs)) (ground (arith, length-drop start xs))
]

-- A page with a limit is that many of the ids behind its start, as long as the sum fits 64 bits.
pub page-take :
    (start limit : ℕ) (ids : List Str)
    → 0 < limit
    → start + limit < 2 ^ 64
    → page start limit ids ≡ some (take limit (drop start ids))
unfolding page
page-take start limit ids h fits = elim (Bool-cases (leb (length ids) start)) [
  | inl e ↦ rw (e, drop-all start ids (ground arith), take-nil limit) refl
  | inr e ↦
      rw (e, page_end_lem start limit (length ids) h fits)
        (slice_lem start (min (start + limit) (length ids)) ids (ground arith) (ground arith)
          ∙ ap some (take-min start limit ids))
]

-- A page whose start and limit overflow 64 bits is out of range, and the call panics.
pub page-overflow :
    (start limit : ℕ) (ids : List Str)
    → 0 < limit
    → limit < 2 ^ 64
    → start < length ids
    → 2 ^ 64 ≤ start + limit
    → page start limit ids ≡ none
unfolding page page_end slice
page-overflow start limit ids h small inside over = ground arith

-- The pages of one limit from a start on, one after the other.
unfoldable pub pages : ℕ → ℕ → ℕ → List Str → Option (List Str)
pages zero start limit ids = some []
pages (suc n) start limit ids = elim (page start limit ids) [
  | none ↦ none
  | some here ↦ elim (pages n (start + limit) limit ids) [
    | none ↦ none
    | some rest ↦ some (here ++ rest)
  ]
]

take-drop {ℓ} : {A : Type ℓ} (n : ℕ) (xs : List A) → take n xs ++ drop n xs ≡ xs
take-drop zero xs = refl
take-drop (suc n) [] = refl
take-drop (suc n) (x ∷ xs) = ap (λ t. x ∷ t) (take-drop n xs)

drop-drop {ℓ} : {A : Type ℓ} (n m : ℕ) (xs : List A) → drop (n + m) xs ≡ drop m (drop n xs)
drop-drop zero m xs = let e : 0 + m ≡ m = omega arith in rw e refl
drop-drop (suc n) zero [] = let e : suc n + 0 ≡ suc n = omega arith in rw e refl
drop-drop (suc n) (suc m) [] = let e : suc n + suc m ≡ suc (n + suc m) = omega arith in rw e refl
drop-drop (suc n) m (x ∷ xs) =
    let e : suc n + m ≡ suc (n + m) = omega arith in rw e (drop-drop n m xs)

-- A client that asks for page after page gets every matching id once and in order: the pages from the
-- start on are the ids from the start on, as soon as there are enough of them.
pub pages_lem :
    (n start limit : ℕ) (ids : List Str)
    → 0 < limit
    → start + n * limit < 2 ^ 64
    → length ids ≤ start + n * limit
    → pages n start limit ids ≡ some (drop start ids)
unfolding pages
pages_lem zero start limit ids h fits enough = ap some (sym (drop-all start ids (omega arith)))
pages_lem (suc n) start limit ids h fits enough =
    let more : suc n * limit ≡ limit + n * limit = omega arith in
    let next =
      pages_lem n (start + limit) limit ids h (omega (arith, more)) (omega (arith, more)) in
    rw (page-take start limit ids h (omega (arith, more)), pages, next)
      (ap some (
        ap (λ t. take limit (drop start ids) ++ t) (drop-drop start limit ids)
        ∙ take-drop limit (drop start ids)))
