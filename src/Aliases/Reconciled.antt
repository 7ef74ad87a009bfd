-- ===== src/Aliases/Reconciled.antt =====
-- Where addresses lead after a reconciliation (crates/jmapsmtp/src/did/alias_reconcile.rs).
use jmapsmtp.Prelude.{
  Bool, true, false, Option, none, some, List, [], ◌∷◌, Str, ◌≡◌, ◌∙◌, sym, is_some, refl, arith,
  not, ◌&&◌, if◌then◌else◌, any, keep_if, text_eq, text_eq_iff, eq_ignore_ascii_case, split_once,
  Bool-cases, inl, inr, is_empty,
}
use jmapsmtp.Map
use jmapsmtp.Map.{Map, lookup-insert, lookup-remove}
use jmapsmtp.Keys.{text_ord, same_iff}
use jmapsmtp.Accounts.{Accounts, points_at, add_alias, remove_alias, aliases_for}
use jmapsmtp.Aliases.{
  AliasState, resolved, remove_all, add_wanted, plan, is_desired, unless_present, desired_alias,
  apply_plan, reconcile_account,
}

-- Whether an entry goes when aliases are removed.
abbrev goes : {S : Type 0} → Str → List Str → Str → Accounts S → Bool
goes a gone primary t =
    any (λ r. text_eq r a) gone
    && not (eq_ignore_ascii_case a primary)
    && points_at primary (Map.lookup a t.aliases)

any-keep_if :
    (a : Str) (desired : Option Str) (current : List Str)
    → any (λ r. text_eq r a) (keep_if (λ x. not (is_desired desired x)) current)
      ≡ (any (λ r. text_eq r a) current && not (is_desired desired a))
any-keep_if a desired [] = refl
any-keep_if a none (x ∷ current) = ground (arith, any-keep_if a none current)
any-keep_if a (some d) (x ∷ current) =
    ground
      (arith, any-keep_if a (some d) current, text_eq_iff x a, text_eq_iff d x, text_eq_iff d a)

module _ {S : Type 0} where
  lookup-remove_alias :
      (a r primary : Str) (t : Accounts S)
      → Map.lookup a (remove_alias r primary t).0.aliases
        ≡ (if goes a (r ∷ []) primary t then none else Map.lookup a t.aliases)
  unfolding remove_alias
  lookup-remove_alias a r primary t = elim (Bool-cases (text_eq r a)) [
    | inl e ↦
        let is_it : r ≡ a = ground (arith, text_eq_iff r a) in
        rw (is_it) (ground (arith, text_eq_iff a a, same_iff a a, lookup-remove a a t.aliases))
    | inr e ↦ ground (arith, text_eq_iff r a, same_iff a r, lookup-remove r a t.aliases)
  ]

  lookup-remove_all :
      (a primary : Str) (gone : List Str) (t : Accounts S)
      → Map.lookup a (remove_all gone primary t).aliases
        ≡ (if goes a gone primary t then none else Map.lookup a t.aliases)
  unfolding remove_all
  lookup-remove_all a primary [] t = refl
  lookup-remove_all a primary (r ∷ gone) t = ground (
    arith,
    lookup-remove_all a primary gone (remove_alias r primary t).0,
    lookup-remove_alias a r primary t,
  )

  stores-remove_all :
      (gone : List Str) (primary : Str) (t : Accounts S)
      → (remove_all gone primary t).stores ≡ t.stores
  unfolding remove_all remove_alias
  stores-remove_all [] primary t = refl
  stores-remove_all (r ∷ gone) primary t =
      stores-remove_all gone primary (remove_alias r primary t).0 ∙ ground arith

-- Where an address leads once the aliases of an account are those that it should have.
abbrev is_wanted : (Str → Str) → Str → Option Str → Bool
is_wanted to_lowercase a none = false
is_wanted to_lowercase a (some want) = text_eq (to_lowercase want) a

abbrev pub settled : {S : Type 0} → (Str → Str) → Str → Str → Option Str → Accounts S → Option Str
settled to_lowercase a primary desired t =
    let current = aliases_for primary t.aliases in
    if is_wanted to_lowercase a (unless_present desired current)
      && Map.contains_key primary t.stores
    then some primary
    else if any (λ r. text_eq r a) current
        && not (is_desired desired a)
        && not (eq_ignore_ascii_case a primary)
        && points_at primary (Map.lookup a t.aliases)
    then none
    else Map.lookup a t.aliases

module _ {S : Type 0} (to_lowercase : Str → Str) where
  lookup-add_wanted :
      (a primary : Str) (want : Option Str) (t : Accounts S)
      → Map.lookup a (add_wanted to_lowercase want primary t).aliases ≡ (
          if is_wanted to_lowercase a want && Map.contains_key primary t.stores
          then some primary
          else Map.lookup a t.aliases)
  unfolding add_wanted add_alias
  lookup-add_wanted a primary none t = refl
  lookup-add_wanted a primary (some want) t = ground (
    arith,
    lookup-insert (to_lowercase want) a primary t.aliases,
    same_iff a (to_lowercase want),
    text_eq_iff (to_lowercase want) a,
  )

  add_wanted-idle :
      (gone : List Str) (want : Option Str) (primary : Str) (t : Accounts S)
      → is_empty gone && not (is_some want) ≡ true
      → add_wanted to_lowercase want primary (remove_all gone primary t) ≡ t
  unfolding add_wanted remove_all
  add_wanted-idle [] none primary t h = refl
  add_wanted-idle [] (some want) primary t h = cc
  add_wanted-idle (x ∷ gone) want primary t h = cc

  accounts-apply_plan :
      (written : Bool) (primary localpart domain : Str) (desired : Option Str) (st : AliasState S)
      → (apply_plan to_lowercase written primary localpart domain desired st).accounts ≡ (
          let p = plan (aliases_for primary st.accounts.aliases) desired in
          add_wanted to_lowercase p.1 primary (remove_all p.0 primary st.accounts))
  unfolding apply_plan
  accounts-apply_plan written primary localpart domain desired st =
      let p = plan (aliases_for primary st.accounts.aliases) desired in
      elim (Bool-cases (is_empty p.0 && not (is_some p.1))) [
        | inl e ↦ rw (apply_plan, e) (sym (add_wanted-idle p.0 p.1 primary st.accounts e))
        | inr e ↦ rw (apply_plan, e) refl
      ]

  -- After the reconciliation of an account whose lookup came to an answer, the address that it should
  -- have and did not have leads to it, if the table has the account; an alias of it that it should not
  -- have leads nowhere; and every other address leads where it did. The account's name has an `@`.
  pub lookup-reconcile_account :
      {D : Type 0} (domains : Map Str D) (written : Bool) (u d : Option Str) (primary a : Str)
      (at : Str × Str) (st : AliasState S)
      → split_once b'@' primary ≡ some at
      → Map.lookup a
          (reconcile_account to_lowercase domains written
            (resolved u d)
            primary
            st).accounts.aliases
        ≡ settled to_lowercase a primary (desired_alias domains (resolved u d)) st.accounts
  unfolding reconcile_account plan
  lookup-reconcile_account domains written u d primary a (localpart, domain) st h =
      let desired = desired_alias domains (resolved u d) in
      let current = aliases_for primary st.accounts.aliases in
      let gone = keep_if (λ x. not (is_desired desired x)) current in
      rw
        (
          reconcile_account,
          h,
          accounts-apply_plan written primary localpart domain desired st,
          lookup-add_wanted a primary (unless_present desired current)
              (remove_all gone primary st.accounts),
          stores-remove_all gone primary st.accounts,
          lookup-remove_all a primary gone st.accounts,
          any-keep_if a desired current,
        )
        refl
