-- ===== src/Accounts/Routing.antt =====
-- Every alias leads to an account that is there, whatever the operations.
use jmapsmtp.Prelude.{
  true, some, List, [], ◌∷◌, Str, ◌≡◌, arith, if◌then◌else◌, text_eq, text_eq_iff, not, Bool-cases,
  inl, inr, All, is_some,
}
use jmapsmtp.Map
use jmapsmtp.Map.{Map, contains_key-insert, contains_key-remove, All-insert, All-remove, All-lookup}
use jmapsmtp.Keys.{text_ord, same_iff}
use jmapsmtp.Accounts.{
  AccountStore, Accounts, insert_aliases, insert, add_alias, remove_alias, migrate_primary, remove,
  resolve, no_accounts,
}

-- The primary address of an entry of the alias map is one of an account.
abbrev pub Leads : {S : Type 0} → Map Str (AccountStore S) → Str × Str → Type 0
Leads stores e = Map.contains_key e.1 stores ≡ true

abbrev pub IsRouted : {S : Type 0} → Accounts S → Type 0
IsRouted t = All (Leads t.stores) t.aliases

All-map {ℓ κ μ} :
    {A : Type ℓ} (P : A → Type κ) (Q : A → Type μ)
    → ((a : A) → P a → Q a)
    → (xs : List A) → All P xs
    → All Q xs
All-map P Q f [] h = tt
All-map P Q f (x ∷ xs) h = (f x h.0, All-map P Q f xs h.1)

module _ {S : Type 0} where
  Leads-insert :
      (primary : Str) (account : AccountStore S) (stores : Map Str (AccountStore S)) (e : Str × Str)
      → Leads stores e
      → Leads (Map.insert primary account stores) e
  Leads-insert primary account stores e h =
      ground (arith, contains_key-insert primary e.1 account stores)

  Leads-self :
      (primary alias : Str) (account : AccountStore S) (stores : Map Str (AccountStore S))
      → Leads (Map.insert primary account stores) (alias, primary)
  Leads-self primary alias account stores =
      ground (arith, contains_key-insert primary primary account stores, same_iff primary primary)

  insert_aliases-All :
      (lower : Str → Str) (stores : Map Str (AccountStore S)) (primary : Str) (aliases : List Str)
      (m : Map Str Str)
      → Map.contains_key primary stores ≡ true
      → All (Leads stores) m
      → All (Leads stores) (insert_aliases lower primary aliases m)
  unfolding insert_aliases
  insert_aliases-All lower stores primary [] m there h = h
  insert_aliases-All lower stores primary (a ∷ aliases) m there h =
      insert_aliases-All lower stores primary aliases (Map.insert (lower a) primary m) there
        (All-insert (Leads stores) (lower a) primary m there h)

  insert-IsRouted :
      (lower : Str → Str) (account : AccountStore S) (aliases : List Str) (t : Accounts S)
      → IsRouted t
      → IsRouted (insert lower account aliases t)
  unfolding insert
  insert-IsRouted lower account aliases t h =
      let stores = Map.insert account.email account t.stores in
      let self = Leads-self account.email account.email account t.stores in
      insert_aliases-All lower stores account.email aliases
        (Map.insert account.email account.email t.aliases) self
        (All-insert (Leads stores) account.email account.email t.aliases self (
          All-map (Leads t.stores) (Leads stores) (Leads-insert account.email account t.stores)
            t.aliases h))

  add_alias-IsRouted :
      (lower : Str → Str) (alias primary : Str) (t : Accounts S)
      → IsRouted t
      → IsRouted (add_alias lower alias primary t).0
  unfolding add_alias
  add_alias-IsRouted lower alias primary t h =
      elim (Bool-cases (Map.contains_key primary t.stores)) [
        | inl there ↦
            rw (there, add_alias)
              (All-insert (Leads t.stores) (lower alias) primary t.aliases there h)
        | inr gone ↦ rw (gone, add_alias) h
      ]

  remove_alias-IsRouted :
      (alias primary : Str) (t : Accounts S)
      → IsRouted t
      → IsRouted (remove_alias alias primary t).0
  unfolding remove_alias
  remove_alias-IsRouted alias primary t h =
      ground (arith, h, All-remove (Leads t.stores) alias t.aliases h)

  Leads-migrated :
      (old_primary alias primary : Str) (account : AccountStore S)
      (stores : Map Str (AccountStore S))
      → Leads stores (alias, primary)
      → Leads
          (Map.insert account.email account (Map.remove old_primary stores))
          (alias, if text_eq primary old_primary then account.email else primary)
  Leads-migrated old_primary alias primary account stores h = ground (
    arith,
    contains_key-insert account.email
        (if text_eq primary old_primary then account.email else primary) account
        (Map.remove old_primary stores),
    contains_key-remove old_primary primary stores,
    same_iff account.email account.email,
    same_iff primary old_primary,
    text_eq_iff primary old_primary,
  )

  migrated-All :
      (old_primary : Str) (account : AccountStore S) (stores : Map Str (AccountStore S))
      (m : Map Str Str)
      → All (Leads stores) m
      → All
          (Leads (Map.insert account.email account (Map.remove old_primary stores)))
          (Map.map_values (λ p. if text_eq p old_primary then account.email else p) m)
  unfolding Map.map_values
  migrated-All old_primary account stores [] h = tt
  migrated-All old_primary account stores ((alias, primary) ∷ m) h = (
    Leads-migrated old_primary alias primary account stores h.0,
    migrated-All old_primary account stores m h.1,
  )

  migrate_primary-IsRouted :
      (old_primary : Str) (account : AccountStore S) (t : Accounts S)
      → IsRouted t
      → IsRouted (migrate_primary old_primary account t).0
  unfolding migrate_primary
  migrate_primary-IsRouted old_primary account t h =
      let new_primary = account.email in
      let stores = Map.insert new_primary account (Map.remove old_primary t.stores) in
      let aliases =
        Map.map_values (λ p. if text_eq p old_primary then new_primary else p) t.aliases in
      let self =
        λ (alias : Str). Leads-self new_primary alias account (Map.remove old_primary t.stores) in
      let there =
        All-insert (Leads stores) new_primary new_primary
          (Map.insert old_primary new_primary aliases) (self new_primary)
          (All-insert (Leads stores) old_primary new_primary aliases (self old_primary)
            (migrated-All old_primary account t.stores t.aliases h)) in
      elim (Bool-cases (Map.contains_key old_primary t.stores)) [
        | inr gone ↦ rw (gone, migrate_primary) h
        | inl e ↦ elim (Bool-cases (Map.contains_key new_primary t.stores)) [
          | inl taken ↦ rw (e, taken, migrate_primary) h
          | inr free ↦ rw (e, free, migrate_primary) there
        ]
      ]

  retain-All :
      (primary : Str) (stores : Map Str (AccountStore S)) (m : Map Str Str)
      → All (Leads stores) m
      → All (Leads (Map.remove primary stores)) (Map.retain (λ p. not (text_eq p primary)) m)
  unfolding Map.retain
  retain-All primary stores [] h = tt
  retain-All primary stores ((alias, p) ∷ m) h =
      let rest = retain-All primary stores m h.1 in
      elim (Bool-cases (text_eq p primary)) [
        | inl e ↦ rw (e, Map.retain) rest
        | inr e ↦
            let other : Leads (Map.remove primary stores) (alias, p) = ground (
              arith,
              h.0,
              contains_key-remove primary p stores,
              same_iff p primary,
              text_eq_iff p primary,
            ) in
            rw (e, Map.retain) (other, rest)
      ]

  remove-IsRouted : (primary : Str) (t : Accounts S) → IsRouted t → IsRouted (remove primary t).0
  unfolding remove
  remove-IsRouted primary t h = retain-All primary t.stores t.aliases h

-- What the callers do to the table.
pub data Op (S : Type 0) : Type 0 where
  insert_op : AccountStore S → List Str → Op S
  add_alias_op : Str → Str → Op S
  remove_alias_op : Str → Str → Op S
  migrate_op : Str → AccountStore S → Op S
  remove_op : Str → Op S

module _ {S : Type 0} (to_lowercase : Str → Str) where
  unfoldable pub apply : Op S → Accounts S → Accounts S
  apply (insert_op account aliases) t = insert to_lowercase account aliases t
  apply (add_alias_op alias primary) t = (add_alias to_lowercase alias primary t).0
  apply (remove_alias_op alias primary) t = (remove_alias alias primary t).0
  apply (migrate_op old_primary account) t = (migrate_primary old_primary account t).0
  apply (remove_op primary) t = (remove primary t).0

  unfoldable pub run : List (Op S) → Accounts S → Accounts S
  run [] t = t
  run (op ∷ ops) t = run ops (apply op t)

  apply-IsRouted : (op : Op S) (t : Accounts S) → IsRouted t → IsRouted (apply op t)
  unfolding apply
  apply-IsRouted (insert_op account aliases) t h = insert-IsRouted to_lowercase account aliases t h
  apply-IsRouted (add_alias_op alias primary) t h =
      add_alias-IsRouted to_lowercase alias primary t h
  apply-IsRouted (remove_alias_op alias primary) t h = remove_alias-IsRouted alias primary t h
  apply-IsRouted (migrate_op old_primary account) t h =
      migrate_primary-IsRouted old_primary account t h
  apply-IsRouted (remove_op primary) t h = remove-IsRouted primary t h

  pub run-IsRouted : (ops : List (Op S)) (t : Accounts S) → IsRouted t → IsRouted (run ops t)
  unfolding run
  run-IsRouted [] t h = h
  run-IsRouted (op ∷ ops) t h = run-IsRouted ops (apply op t) (apply-IsRouted op t h)

  routed-Leads :
      (stores : Map Str (AccountStore S)) (address primary : Str) (m : Map Str Str)
      → All (Leads stores) m
      → Map.lookup address m ≡ some primary
      → Map.contains_key primary stores ≡ true
  routed-Leads stores address primary m h e = All-lookup (Leads stores) address primary m e h

  -- In a table that the operations made, an address that the alias map names is delivered to an
  -- account: `resolve` never finds an alias that leads nowhere.
  pub resolve-run :
      (ops : List (Op S)) (address primary : Str)
      → Map.lookup (to_lowercase address) (run ops no_accounts).aliases ≡ some primary
      → is_some (resolve to_lowercase address (run ops no_accounts)) ≡ true
  unfolding resolve Map.contains_key
  resolve-run ops address primary e =
      let t = run ops no_accounts in
      let there =
        routed-Leads t.stores (to_lowercase address) primary t.aliases
          (run-IsRouted ops no_accounts tt) e in
      rw (e, resolve) there
