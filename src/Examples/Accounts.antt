-- ===== src/Examples/Accounts.antt =====
-- An account, its alias and its migration to another address.
use jmapsmtp.Prelude.{
  text_compare, text_eq, true, some, none, List, [], ◌∷◌, Str, codes, ◌≡◌, refl, to_ascii_lowercase,
  is_some, split_once, eq_ignore_ascii_case,
}
use jmapsmtp.Map
use jmapsmtp.Keys.{text_ord, same}
use jmapsmtp.Accounts.{AccountStore, Accounts, insert, resolve, add_alias, no_accounts, aliases_for}
use jmapsmtp.Accounts.Routing.{
  Op, insert_op, add_alias_op, run, apply, resolve-run, IsRouted, run-IsRouted,
}
use jmapsmtp.Aliases.{AliasState, resolved, reconcile_account, desired_alias}
use jmapsmtp.Aliases.Reconciled.{lookup-reconcile_account}

abbrev account : Str → AccountStore Unit
account email = record {
  email = email;
  domain = codes "b";
  localpart = codes "a";
  dir = codes "d";
  store = tt;
}

abbrev script : List (Op Unit)
script = insert_op (account (codes "a@b")) [] ∷ add_alias_op (codes "X@b") (codes "a@b") ∷ []

abbrev table : Accounts Unit
table = run to_ascii_lowercase script no_accounts

table-IsRouted : IsRouted table
table-IsRouted = run-IsRouted to_ascii_lowercase script no_accounts tt

resolve-run_example : is_some (resolve to_ascii_lowercase (codes "x@B") table) ≡ true
unfolding run apply Map.retain insert add_alias Map.lookup Map.insert Map.contains_key text_compare
    to_ascii_lowercase
resolve-run_example = resolve-run to_ascii_lowercase script (codes "x@B") (codes "a@b") refl

abbrev aliased : AliasState Unit
aliased = record { accounts = table; files = [] }

lookup-reconcile_account_example :
    Map.lookup
      (codes "x@b")
      (reconcile_account to_ascii_lowercase
        ((codes "b", tt) ∷ [])
        true
        (resolved (some (codes "n")) (some (codes "b")))
        (codes "a@b")
        aliased).accounts.aliases
    ≡ none
unfolding run apply insert add_alias Map.lookup Map.insert Map.contains_key text_compare
    to_ascii_lowercase text_eq eq_ignore_ascii_case split_once desired_alias aliases_for same
lookup-reconcile_account_example =
    lookup-reconcile_account to_ascii_lowercase ((codes "b", tt) ∷ []) true (some (codes "n"))
      (some (codes "b")) (codes "a@b") (codes "x@b") (codes "a", codes "b") aliased refl
