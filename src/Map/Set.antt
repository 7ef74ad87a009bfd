-- ===== src/Map/Set.antt =====
-- `BTreeSet`.
use Prim.Native.Nat.{Ordering}
use jmapsmtp.Prelude.{Bool, true, false, List, [], ◌∷◌, ◌≡◌, refl, arith, if◌then◌else◌}
use jmapsmtp.Keys.{Ord, same, same_iff, same_refl}

abbrev pub Set {ℓ} : Type ℓ → Type ℓ
Set K = List K

module _ {ℓ} {K : Type ℓ} ⦃o : Ord K⦄ where
  unfoldable pub contains : K → Set K → Bool
  unfolding same
  contains k [] = false
  contains k (j ∷ s) = if same k j then true else contains k s

  unfoldable pub insert : K → Set K → Set K
  insert k [] = k ∷ []
  insert k (j ∷ s) = elim (o.cmp k j) [
    | Ordering.lt ↦ k ∷ j ∷ s
    | Ordering.eq ↦ j ∷ s
    | Ordering.gt ↦ j ∷ insert k s
  ]

  unfoldable pub remove : K → Set K → Set K
  unfolding same
  remove k [] = []
  remove k (j ∷ s) = let rest = remove k s in if same k j then rest else j ∷ rest

  pub contains-insert :
      (k j : K) (s : Set K) → contains j (insert k s) ≡ (if same j k then true else contains j s)
  unfolding contains insert
  contains-insert k j [] = refl
  contains-insert k j (i ∷ s) =
      ground (arith, contains-insert k j s, o.cmp_iff j k, o.cmp_iff j i, o.cmp_iff k i)

  pub contains-remove :
      (k j : K) (s : Set K) → contains j (remove k s) ≡ (if same j k then false else contains j s)
  unfolding contains remove
  contains-remove k j [] = ground arith
  contains-remove k j (i ∷ s) =
      ground (arith, contains-remove k j s, o.cmp_iff j k, o.cmp_iff j i, o.cmp_iff k i)

pub ruleset set_laws = (contains-insert, contains-remove, same_refl)
