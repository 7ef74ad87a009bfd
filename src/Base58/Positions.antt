-- ===== src/Base58/Positions.antt =====
-- The place of a character in an alphabet: what `position` finds is checked for every digit once
-- (crates/jmapserver/src/base58.rs and zbase32.rs).
use jmapsmtp.Prelude.{
  ℕ, zero, suc, ◌<◌, Bool, true, false, Option, none, some, Str, ◌≡◌, refl, arith, ◌==◌, ==_iff,
  ◌&&◌, Bool-cases, Option-cases, [], ◌∷◌, get_elem?, length, inl, inr,
}
use jmapsmtp.Base58.{position}

abbrev is_some_of : ℕ → Option ℕ → Bool
is_some_of d none = false
is_some_of d (some i) = i == d

is_some_of-true : (d : ℕ) (o : Option ℕ) → is_some_of d o ≡ true → o ≡ some d
is_some_of-true d none h = cc
is_some_of-true d (some i) h = ground (arith, ==_iff i d)

and-true : (a b : Bool) → a && b ≡ true → (a ≡ true) × (b ≡ true)
and-true true b h = (refl, h)
and-true false b h = cc

module _ (char : ℕ → ℕ) (letters : Str) where
  -- Each digit below the bound has a character of its own.
  unfoldable pub checked : ℕ → Bool
  unfolding position
  checked zero = true
  checked (suc d) = let rest = checked d in is_some_of d (position (char d) letters) && rest

  pub position-checked : (n d : ℕ) → checked n ≡ true → d < n → position (char d) letters ≡ some d
  unfolding checked
  position-checked zero d h k = ground arith
  position-checked (suc n) d h k =
      let both = and-true (is_some_of n (position (char n) letters)) (checked n) h in
      elim (Bool-cases (d == n)) [
        | inl e ↦
            let same : d ≡ n = ground (arith, ==_iff d n) in
            rw (same) (is_some_of-true n (position (char n) letters) both.0)
        | inr e ↦ position-checked n d both.1 (ground (arith, ==_iff d n))
      ]

-- What is found at a place is there.
pub get_elem-position :
    (c : ℕ) (letters : Str) (i : ℕ) → position c letters ≡ some i → get_elem? letters i ≡ some c
unfolding position
get_elem-position c [] i h = cc
get_elem-position c (a ∷ letters) zero h = elim (Option-cases (position c letters)) [
  | inl e ↦ ground (arith, ==_iff c a)
  | inr (j, e) ↦ ground (arith, ==_iff c a)
]
get_elem-position c (a ∷ letters) (suc i) h = elim (Option-cases (position c letters)) [
  | inl e ↦ ground (arith, ==_iff c a)
  | inr (j, e) ↦ let next : j ≡ i = ground arith in get_elem-position c letters i (rw (next) at e)
]

pub position-bound :
    (c : ℕ) (letters : Str) (i : ℕ) → position c letters ≡ some i → i < length letters
unfolding position
position-bound c [] i h = cc
position-bound c (a ∷ letters) i h = elim (Option-cases (position c letters)) [
  | inl e ↦ ground arith
  | inr (j, e) ↦ ground (arith, position-bound c letters j e)
]
