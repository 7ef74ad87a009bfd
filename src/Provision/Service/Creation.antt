-- ===== src/Provision/Service/Creation.antt =====
-- What a new account takes, and what it leaves (crates/jmapsmtp/src/server.rs).
use jmapsmtp.Prelude.{
  Bool, true, false, Option, none, some, [], Str, ◌≡◌, ◌≢◌, refl, sym, ap, ◌∙◌, arith, ◌||◌,
  if◌then◌else◌, text_eq, text_eq_iff, All, Bool-cases, Option-cases, inl, inr,
}
use jmapsmtp.Map
use jmapsmtp.Map.{Map, All-lookup, contains_key-insert, lookup-insert, lookup-insert_self}
use jmapsmtp.Map.Set
use jmapsmtp.Keys.{text_ord, same, same_iff}
use jmapsmtp.Accounts
use jmapsmtp.Accounts.{AccountStore, Accounts}
use jmapsmtp.Accounts.Routing.{IsRouted, Leads}
use jmapsmtp.Accounts.Delivery.{resolve-add_alias}
use jmapsmtp.Login.{account_dir}
use jmapsmtp.Provision.Service.{
  Service, World, Plan, address, read_aliases, register_dyn_account, alias_name,
}

-- Every store stands under the address of its account.
abbrev pub IsKeyed : {S : Type 0} → Map Str (AccountStore S) → Type 0
IsKeyed stores = All (λ e. e.1.email ≡ e.0) stores

if-same :
    {A : Type 0} (b b' : Bool) (x y : A)
    → b' ≡ b
    → (if b then x else y) ≡ (if b || b' then x else y)
if-same true b' x y h = refl
if-same false b' x y h = rw (h) refl

if-either :
    {A : Type 0} (b b' : Bool) (x y : A)
    → (if b' then x else if b then x else y) ≡ (if b || b' then x else y)
if-either true true x y = refl
if-either true false x y = refl
if-either false b' x y = refl

module _ {S : Type 0} (w : World S) where
  -- The account that a plan makes.
  abbrev pub account_of : Plan → S → AccountStore S
  account_of p store = record {
    email = address p.localpart p.domain;
    domain = p.domain;
    localpart = p.localpart;
    dir = account_dir p.domain p.localpart;
    store = w.put_inbox (address p.localpart p.domain) store;
  }

  abbrev with_account : Plan → S → Accounts S → Accounts S
  with_account p store t = Accounts.insert w.codec.to_lowercase (account_of p store) [] t

  pub registered :
      (p : Plan) (store : S) (svc : Service S)
      → w.store_at (account_dir p.domain p.localpart) ≡ some store
      → read_aliases w (account_dir p.domain p.localpart) svc.state.files ≡ []
      → (register_dyn_account w p.localpart p.domain svc).state.accounts
        ≡ with_account p store svc.state.accounts
  unfolding register_dyn_account
  registered p store svc o f = rw (register_dyn_account, o, f) refl

  pub dynamic-registered :
      (p : Plan) (store : S) (svc : Service S)
      → w.store_at (account_dir p.domain p.localpart) ≡ some store
      → (register_dyn_account w p.localpart p.domain svc).relay ≡ record svc.relay {
        dynamic =
            Set.insert (w.codec.to_lowercase (address p.localpart p.domain)) svc.relay.dynamic;
      }
  unfolding register_dyn_account
  dynamic-registered p store svc o = rw (register_dyn_account, o) refl

  -- Where an address leads once the account stands and its name leads to it.
  abbrev pub leads : Plan → S → Str → Accounts S → Option (AccountStore S)
  leads p store a t =
      let k = w.codec.to_lowercase a in
      let primary = address p.localpart p.domain in
      if text_eq k primary || text_eq k (w.codec.to_lowercase (address p.username p.domain))
      then some (account_of p store)
      else Accounts.resolve w.codec.to_lowercase a t

  stores-insert :
      (p : Plan) (store : S) (t : Accounts S) (k : Str)
      → Map.lookup k t.aliases ≢ some (address p.localpart p.domain)
      → (q : Str) → Map.lookup k t.aliases ≡ some q
      → Map.lookup q (Map.insert (address p.localpart p.domain) (account_of p store) t.stores)
        ≡ Map.lookup q t.stores
  stores-insert p store t k other q e =
      let primary = address p.localpart p.domain in
      ground (arith, lookup-insert primary q (account_of p store) t.stores, same_iff q primary)

  resolve-with_account :
      (p : Plan) (store : S) (a : Str) (t : Accounts S)
      → Map.lookup (w.codec.to_lowercase a) t.aliases ≢ some (address p.localpart p.domain)
      → Accounts.resolve w.codec.to_lowercase a (with_account p store t) ≡ (
          if text_eq (w.codec.to_lowercase a) (address p.localpart p.domain)
          then some (account_of p store)
          else Accounts.resolve w.codec.to_lowercase a t)
  unfolding Accounts.resolve Accounts.insert Accounts.insert_aliases
  resolve-with_account p store a t other =
      let primary = address p.localpart p.domain in
      let k = w.codec.to_lowercase a in
      elim (Bool-cases (text_eq k primary)) [
        | inl e ↦
            let here : same k primary ≡ true =
              ground (arith, text_eq_iff k primary, same_iff k primary) in
            rw (Accounts.resolve, lookup-insert primary k primary t.aliases, here, e)
              (lookup-insert_self primary (account_of p store) t.stores)
        | inr e ↦
            let away : same k primary ≡ false =
              ground (arith, text_eq_iff k primary, same_iff k primary) in
            elim (Option-cases (Map.lookup k t.aliases)) [
              | inl n ↦
                  rw (Accounts.resolve, lookup-insert primary k primary t.aliases, away, e, n) refl
              | inr (q, n) ↦
                  rw (Accounts.resolve, lookup-insert primary k primary t.aliases, away, e, n)
                    (stores-insert p store t k other q n)
            ]
      ]

  -- No alias leads to an address that has no account.
  pub unrouted :
      (k primary : Str) (t : Accounts S)
      → IsRouted t
      → Map.lookup primary t.stores ≡ none
      → Map.lookup k t.aliases ≢ some primary
  unfolding Map.contains_key
  unrouted k primary t h free = λ e.
      let leads_to : Map.contains_key primary t.stores ≡ true =
        All-lookup (Leads t.stores) k primary t.aliases e h in
      ground arith

  pub alias_name-accounts :
      (p : Plan) (svc : Service S)
      → (alias_name w p svc).state.accounts ≡ (
          if text_eq p.localpart p.username
          then svc.state.accounts
          else (Accounts.add_alias w.codec.to_lowercase
              (address p.username p.domain)
              (address p.localpart p.domain)
              svc.state.accounts).0)
  unfolding alias_name
  alias_name-accounts p svc = ground arith

  pub alias_name-relay : (p : Plan) (svc : Service S) → (alias_name w p svc).relay ≡ svc.relay
  unfolding alias_name
  alias_name-relay p svc = ground arith

  lookup-with_account :
      (p : Plan) (store : S) (t : Accounts S)
      → Map.lookup (address p.localpart p.domain) (with_account p store t).stores
        ≡ some (account_of p store)
  unfolding Accounts.insert
  lookup-with_account p store t =
      lookup-insert_self (address p.localpart p.domain) (account_of p store) t.stores

  contains-with_account :
      (p : Plan) (store : S) (t : Accounts S)
      → Map.contains_key (address p.localpart p.domain) (with_account p store t).stores ≡ true
  unfolding Map.contains_key
  contains-with_account p store t = rw (Map.contains_key, lookup-with_account p store t) refl

  pub resolve-named :
      (p : Plan) (store : S) (a : Str) (t : Accounts S)
      → IsRouted t
      → Map.lookup (address p.localpart p.domain) t.stores ≡ none
      → w.codec.to_lowercase (address p.localpart p.domain) ≡ address p.localpart p.domain
      → Accounts.resolve w.codec.to_lowercase a (
          if text_eq p.localpart p.username
          then with_account p store t
          else (Accounts.add_alias w.codec.to_lowercase
              (address p.username p.domain)
              (address p.localpart p.domain)
              (with_account p store t)).0)
        ≡ leads p store a t
  resolve-named p store a t routed free lower =
      let primary = address p.localpart p.domain in
      let k = w.codec.to_lowercase a in
      let name = w.codec.to_lowercase (address p.username p.domain) in
      let other = unrouted k primary t routed free in
      let found = resolve-with_account p store a t other in
      elim (Bool-cases (text_eq p.localpart p.username)) [
        | inl e ↦
            let one : p.username ≡ p.localpart = sym ((text_eq_iff p.localpart p.username).0 e) in
            let named : text_eq k name ≡ text_eq k primary =
              ap (λ u. text_eq k (w.codec.to_lowercase (address u p.domain))) one
              ∙ ap (text_eq k) lower in
            rw (e) (found ∙ if-same (text_eq k primary) (text_eq k name) _ _ named)
        | inr e ↦ rw (e) (
            resolve-add_alias w.codec.to_lowercase (address p.username p.domain) primary a
              (with_account p store t) (contains-with_account p store t)
            ∙ ap
                (λ o.
                  if text_eq k name then Map.lookup primary (with_account p store t).stores else o)
                found
            ∙ ap
                (λ o.
                  if text_eq k name
                  then o
                  else if text_eq k primary
                  then some (account_of p store)
                  else Accounts.resolve w.codec.to_lowercase a t)
                (lookup-with_account p store t)
            ∙ if-either (text_eq k primary) (text_eq k name) _ _)
      ]
