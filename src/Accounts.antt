-- ===== src/Accounts.antt =====
-- The table of accounts and aliases: `Accounts` of crates/jmapsmtp/src/handler.rs. An operation holds
-- the lock of the table from start to end, so it is a function from table to table.
use jmapsmtp.Prelude.{
  Bool, true, false, Option, none, some, List, [], ◌∷◌, Str, ◌≡◌, if◌then◌else◌,
  eq_ignore_ascii_case, keep_if, text_eq, not, ◌&&◌,
}
use jmapsmtp.Map
use jmapsmtp.Map.{Map}
use jmapsmtp.Keys.{text_ord}
pub mod Routing
pub mod Delivery

-- `AccountStore`, with the store that it owns as a parameter.
pub record AccountStore (S : Type 0) : Type 0 where
  pub email : Str
  pub domain : Str
  pub localpart : Str
  pub dir : Str
  pub store : S

pub record Accounts (S : Type 0) : Type 0 where
  pub stores : Map Str (AccountStore S)
  pub aliases : Map Str Str

-- `str::to_lowercase` of the standard library maps all of Unicode, and is a parameter.
module _ (to_lowercase : Str → Str) where
  unfoldable pub insert_aliases : Str → List Str → Map Str Str → Map Str Str
  insert_aliases primary [] m = m
  insert_aliases primary (alias ∷ aliases) m =
      insert_aliases primary aliases (Map.insert (to_lowercase alias) primary m)

module _ {S : Type 0} (to_lowercase : Str → Str) where
  unfoldable pub insert : AccountStore S → List Str → Accounts S → Accounts S
  unfolding insert_aliases
  insert account aliases t =
      let primary = account.email in
      record {
        stores = Map.insert primary account t.stores;
        aliases =
            insert_aliases to_lowercase primary aliases (Map.insert primary primary t.aliases);
      }

  unfoldable pub resolve : Str → Accounts S → Option (AccountStore S)
  resolve address t = elim (Map.lookup (to_lowercase address) t.aliases) [
    | none ↦ none
    | some primary ↦ Map.lookup primary t.stores
  ]

  unfoldable pub add_alias : Str → Str → Accounts S → Accounts S × Bool
  add_alias alias primary t =
      if Map.contains_key primary t.stores
      then (record t { aliases = Map.insert (to_lowercase alias) primary t.aliases }, true)
      else (t, false)

  unfoldable pub get : Str → Accounts S → Option (AccountStore S)
  get primary t = Map.lookup (to_lowercase primary) t.stores

abbrev pub points_at : Str → Option Str → Bool
points_at primary none = false
points_at primary (some p) = text_eq p primary

-- The aliases of an account, without its own address.
unfoldable pub aliases_for : Str → Map Str Str → List Str
aliases_for primary [] = []
aliases_for primary ((alias, p) ∷ m) =
    let rest = aliases_for primary m in
    if text_eq p primary && not (text_eq alias primary) then alias ∷ rest else rest

module _ {S : Type 0} where
  unfoldable pub remove_alias : Str → Str → Accounts S → Accounts S × Bool
  remove_alias alias primary t =
      if eq_ignore_ascii_case alias primary
      then (t, false)
      else if points_at primary (Map.lookup alias t.aliases)
      then (record t { aliases = Map.remove alias t.aliases }, true)
      else (t, false)

  unfoldable pub migrate_primary : Str → AccountStore S → Accounts S → Accounts S × Bool
  migrate_primary old_primary new_account t =
      let new_primary = new_account.email in
      if not (Map.contains_key old_primary t.stores)
      then (t, false)
      else if Map.contains_key new_primary t.stores
      then (t, false)
      else (
        record {
          stores = Map.insert new_primary new_account (Map.remove old_primary t.stores);
          aliases = Map.insert new_primary new_primary (
              Map.insert old_primary new_primary
                (Map.map_values (λ p. if text_eq p old_primary then new_primary else p) t.aliases));
        },
        true,
      )

  unfoldable pub remove : Str → Accounts S → Accounts S × Option (AccountStore S)
  remove primary t = (
    record {
      stores = Map.remove primary t.stores;
      aliases = Map.retain (λ p. not (text_eq p primary)) t.aliases;
    },
    Map.lookup primary t.stores,
  )

  abbrev pub no_accounts : Accounts S
  no_accounts = record { stores = []; aliases = [] }
