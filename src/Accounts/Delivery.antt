-- ===== src/Accounts/Delivery.antt =====
-- Which account an address is delivered to after each operation of the table.
use jmapsmtp.Prelude.{
  Bool, true, false, Option, none, some, [], ◌∷◌, Str, ◌≡◌, ◌≢◌, refl, arith, if◌then◌else◌,
  text_eq, text_eq_iff, text_eq_refl, not, Bool-cases, inl, inr, ◌||◌,
}
use jmapsmtp.Map
use jmapsmtp.Map.{
  Map, lookup-insert, lookup-remove, All-lookup, contains_key-insert, contains_key-remove,
}
use jmapsmtp.Keys.{text_ord, same, same_iff, same_refl}
use jmapsmtp.Accounts.{
  AccountStore, Accounts, resolve, add_alias, migrate_primary, remove, points_at,
}
use jmapsmtp.Accounts.Routing.{IsRouted, Leads}

-- The account that an entry of the alias map names.
unfoldable pub account_of :
    {S : Type 0} → Option Str → Map Str (AccountStore S) → Option (AccountStore S)
account_of none stores = none
account_of (some primary) stores = Map.lookup primary stores

unfoldable pub redirect : Str → Str → Option Str → Option Str
redirect old_primary new_primary none = none
redirect old_primary new_primary (some p) = some (if text_eq p old_primary then new_primary else p)

lookup-map_values :
    (f : Str → Str) (k : Str) (m : Map Str Str)
    → Map.lookup k (Map.map_values f m)
      ≡ elim (Map.lookup k m) [ none ↦ none | some v ↦ some (f v) ]
unfolding Map.lookup Map.map_values
lookup-map_values f k [] = refl
lookup-map_values f k ((j, v) ∷ m) = ground (arith, lookup-map_values f k m)

module _ {S : Type 0} (to_lowercase : Str → Str) where
  resolve-account_of :
      (address : Str) (t : Accounts S)
      → resolve to_lowercase address t
        ≡ account_of (Map.lookup (to_lowercase address) t.aliases) t.stores
  unfolding resolve account_of
  resolve-account_of address t = ground arith

  -- A registered alias delivers to the account it names, and no other address changes.
  pub resolve-add_alias :
      (alias primary address : Str) (t : Accounts S)
      → Map.contains_key primary t.stores ≡ true
      → resolve to_lowercase address (add_alias to_lowercase alias primary t).0 ≡ (
          if text_eq (to_lowercase address) (to_lowercase alias)
          then Map.lookup primary t.stores
          else resolve to_lowercase address t)
  unfolding resolve add_alias
  resolve-add_alias alias primary address t h = ground (
    arith,
    lookup-insert (to_lowercase alias) (to_lowercase address) primary t.aliases,
    same_iff (to_lowercase address) (to_lowercase alias),
    text_eq_iff (to_lowercase address) (to_lowercase alias),
  )

  lookup-migrated :
      (old_primary address : Str) (account : AccountStore S) (t : Accounts S)
      → Map.contains_key old_primary t.stores ≡ true
      → Map.contains_key account.email t.stores ≡ false
      → Map.lookup address (migrate_primary old_primary account t).0.aliases ≡ (
          if text_eq address account.email || text_eq address old_primary
          then some account.email
          else redirect old_primary account.email (Map.lookup address t.aliases))
  unfolding migrate_primary redirect
  lookup-migrated old_primary address account t old free =
      let new_primary = account.email in
      let m = Map.map_values (λ p. if text_eq p old_primary then new_primary else p) t.aliases in
      ground (
        arith,
        lookup-insert new_primary address new_primary (Map.insert old_primary new_primary m),
        lookup-insert old_primary address new_primary m,
        lookup-map_values (λ p. if text_eq p old_primary then new_primary else p) address t.aliases,
        same_iff address new_primary,
        same_iff address old_primary,
        text_eq_iff address new_primary,
        text_eq_iff address old_primary,
      )

  stores-migrated :
      (old_primary primary : Str) (account : AccountStore S) (t : Accounts S)
      → Map.contains_key old_primary t.stores ≡ true
      → Map.contains_key account.email t.stores ≡ false
      → Map.lookup primary (migrate_primary old_primary account t).0.stores ≡ (
          if text_eq primary account.email
          then some account
          else if text_eq primary old_primary
          then none
          else Map.lookup primary t.stores)
  unfolding migrate_primary
  stores-migrated old_primary primary account t old free = ground (
    arith,
    lookup-insert account.email primary account (Map.remove old_primary t.stores),
    lookup-remove old_primary primary t.stores,
    same_iff primary account.email,
    same_iff primary old_primary,
    text_eq_iff primary account.email,
    text_eq_iff primary old_primary,
  )

  -- The account of an entry after a migration, when the entry led to an account before.
  account_of-redirect :
      (old_primary : Str) (account : AccountStore S) (t : Accounts S) (found : Option Str)
      → ((p : Str) → found ≡ some p → Map.contains_key p t.stores ≡ true)
      → Map.contains_key old_primary t.stores ≡ true
      → Map.contains_key account.email t.stores ≡ false
      → account_of
          (redirect old_primary account.email found)
          (migrate_primary old_primary account t).0.stores
        ≡ (if points_at old_primary found then some account else account_of found t.stores)
  unfolding account_of redirect
  account_of-redirect old_primary account t none routed old free = refl
  account_of-redirect old_primary account t (some p) routed old free =
      let there = routed p refl in
      ground (
        arith,
        stores-migrated old_primary account.email account t old free,
        stores-migrated old_primary p account t old free,
        text_eq_iff p account.email,
        text_eq_iff p old_primary,
        text_eq_refl account.email,
      )

  -- After a migration the old address, the new one and every alias of the old account are delivered
  -- to the new account, and every other address where it was delivered before. The old account is
  -- there, the new address is free, and every alias of the table leads to an account.
  pub resolve-migrate_primary :
      (old_primary address : Str) (account : AccountStore S) (t : Accounts S)
      → IsRouted t
      → Map.contains_key old_primary t.stores ≡ true
      → Map.contains_key account.email t.stores ≡ false
      → resolve to_lowercase address (migrate_primary old_primary account t).0 ≡ (
          if text_eq (to_lowercase address) account.email
            || text_eq (to_lowercase address) old_primary
            || points_at old_primary (Map.lookup (to_lowercase address) t.aliases)
          then some account
          else resolve to_lowercase address t)
  unfolding account_of
  resolve-migrate_primary old_primary address account t routed old free =
      let a = to_lowercase address in
      let stores = (migrate_primary old_primary account t).0.stores in
      let found =
        account_of-redirect old_primary account t (Map.lookup a t.aliases)
          (λ p e. All-lookup (Leads t.stores) a p t.aliases e routed) old free in
      ground (
        arith,
        found,
        resolve-account_of address t,
        resolve-account_of address (migrate_primary old_primary account t).0,
        lookup-migrated old_primary a account t old free,
        stores-migrated old_primary account.email account t old free,
        text_eq_refl account.email,
      )

lookup-retain :
    (p : Str → Bool) (k v : Str) (m : Map Str Str)
    → Map.lookup k (Map.retain p m) ≡ some v
    → p v ≡ true
unfolding Map.lookup Map.retain
lookup-retain p k v [] e = cc
lookup-retain p k v ((j, w) ∷ m) e = elim (Bool-cases (p w)) [
  | inr out ↦ lookup-retain p k v m (rw (out, Map.retain) at e)
  | inl kept ↦ elim (Bool-cases (same k j)) [
    | inl here ↦
        let value : w ≡ v = cc (rw (kept, Map.retain, here, Map.lookup) at e) in rw (← value) kept
    | inr there ↦ lookup-retain p k v m (rw (kept, Map.retain, there, Map.lookup) at e)
  ]
]

module _ {S : Type 0} (to_lowercase : Str → Str) where
  -- No address is delivered to an account that was removed: neither the table of accounts nor an
  -- alias has it any more.
  pub resolve-remove :
      (primary alias p : Str) (t : Accounts S)
      → Map.lookup alias (remove primary t).0.aliases ≡ some p
      → (p ≢ primary) × (Map.lookup primary (remove primary t).0.stores ≡ none)
  unfolding remove
  resolve-remove primary alias p t e =
      let kept = lookup-retain (λ q. not (text_eq q primary)) alias p t.aliases e in
      (
        λ q. ground (arith, text_eq_iff p primary),
        ground (arith, lookup-remove primary primary t.stores, same_refl primary),
      )
