-- ===== src/Keys.antt =====
-- The order of the keys of a `BTreeMap`, as an interface, and the two kinds of keys in use.
use Prim.Native.Nat.{compare, Ordering}
use jmapsmtp.Prelude.{
  ℕ, Str, Bool, true, false, ◌≡◌, ◌↔◌, refl, arith, text_compare, text_compare_iff,
}

pub record Ord {ℓ} (K : Type ℓ) : Type ℓ where
  pub cmp : K → K → Ordering
  pub cmp_iff : (a b : K) → (cmp a b ≡ Ordering.eq) ↔ (a ≡ b)

pub compare_iff : (a b : ℕ) → (compare a b ≡ Ordering.eq) ↔ (a ≡ b)
compare_iff a b = ground arith

instance abbrev pub nat_ord : Ord ℕ
nat_ord = record { cmp = compare; cmp_iff = compare_iff }

instance abbrev pub text_ord : Ord Str
text_ord = record { cmp = text_compare; cmp_iff = text_compare_iff }

module _ {ℓ} {K : Type ℓ} ⦃o : Ord K⦄ where
  unfoldable pub same : K → K → Bool
  same a b = elim (o.cmp a b) [ Ordering.eq ↦ true | _ ↦ false ]

  pub same_iff : (a b : K) → (same a b ≡ true) ↔ (a ≡ b)
  unfolding same
  same_iff a b =
      let (there, back) = o.cmp_iff a b in (λ h. there (ground arith), λ h. ground (arith, back h))

  pub same_refl : (a : K) → same a a ≡ true
  same_refl a = (same_iff a a).1 refl
