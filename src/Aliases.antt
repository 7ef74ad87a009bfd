-- ===== src/Aliases.antt =====
-- The aliases of an account: crates/jmapsmtp/src/did/alias_reconcile.rs, the file of the aliases of
-- crates/jmapsmtp/src/auth_env.rs, and `account_alias` of crates/jmapsmtp/src/server.rs.
use jmapsmtp.Prelude.{
  ℕ, Bool, true, false, Option, none, some, List, [], ◌∷◌, ◌++◌, Str, codes, not, ◌&&◌, ◌||◌,
  if◌then◌else◌, is_empty, is_some, any, keep_if, join, text_eq, split_once,
}
use jmapsmtp.Map
use jmapsmtp.Map.{Map}
use jmapsmtp.Keys.{text_ord}
use jmapsmtp.Accounts.{Accounts, add_alias, remove_alias, aliases_for}
pub mod Handler
pub mod Reconciled

-- What the anchor says of an account.
pub data AliasLookup : Type 0 where
  not_bound : AliasLookup
  unknown : AliasLookup
  resolved : Option Str → Option Str → AliasLookup

-- The table of the accounts, and the text of the file of aliases in each directory.
pub record AliasState (S : Type 0) : Type 0 where
  pub accounts : Accounts S
  pub files : Map Str Str

unfoldable pub write_aliases : Bool → Str → Str → List Str → Map Str Str → Map Str Str
unfolding join
write_aliases written domain localpart aliases files =
    if written
    then Map.insert (domain ++ b'/' ∷ localpart) (join (b'\n' ∷ []) aliases) files
    else files

-- The domains are those of the configuration. The callers skip what is not bound and what is unknown.
unfoldable pub desired_alias : {D : Type 0} → Map Str D → AliasLookup → Option Str
desired_alias domains (resolved (some u) (some d)) =
    if Map.contains_key d domains then some (u ++ b'@' ∷ d) else none
desired_alias domains _ = none

abbrev pub is_desired : Option Str → Str → Bool
is_desired none a = false
is_desired (some d) a = text_eq d a

abbrev pub unless_present : Option Str → List Str → Option Str
unless_present none current = none
unless_present (some d) current = if any (λ a. text_eq a d) current then none else some d

-- The aliases to remove, and the one to add.
unfoldable pub plan : List Str → Option Str → List Str × Option Str
plan current desired =
    (keep_if (λ a. not (is_desired desired a)) current, unless_present desired current)

module _ {S : Type 0} where
  unfoldable pub remove_all : List Str → Str → Accounts S → Accounts S
  unfolding remove_alias
  remove_all [] primary t = t
  remove_all (alias ∷ aliases) primary t =
      remove_all aliases primary (remove_alias alias primary t).0

  module _ (to_lowercase : Str → Str) where
    unfoldable pub add_wanted : Option Str → Str → Accounts S → Accounts S
    unfolding add_alias
    add_wanted none primary t = t
    add_wanted (some want) primary t = (add_alias to_lowercase want primary t).0

    -- The changes of one account whose lookup came to an answer.
    unfoldable pub apply_plan : Bool → Str → Str → Str → Option Str → AliasState S → AliasState S
    unfolding plan remove_all add_wanted aliases_for write_aliases
    apply_plan written primary localpart domain desired st =
        let (gone, want) = plan (aliases_for primary st.accounts.aliases) desired in
        let t = add_wanted want primary (remove_all gone primary st.accounts) in
        if is_empty gone && not (is_some want) then st else record {
          accounts = t;
          files = write_aliases written domain localpart (aliases_for primary t.aliases) st.files;
        }

    unfoldable pub reconcile_account :
        {D : Type 0} → Map Str D → Bool → AliasLookup → Str → AliasState S → AliasState S
    unfolding desired_alias apply_plan split_once
    reconcile_account domains written lookup primary st = elim (split_once b'@' primary) [
      | none ↦ st
      | some (localpart, domain) ↦ elim lookup [
        | not_bound ↦ st
        | unknown ↦ st
        | resolved u d ↦
            apply_plan written primary localpart domain (desired_alias domains (resolved u d)) st
      ]
    ]

    -- One pass over the accounts; `lookup` is what the anchor says, `written` how the file fares.
    unfoldable pub reconcile_aliases :
        {D : Type 0}
        → Map Str D
        → (Str → Bool)
        → (Str → AliasLookup)
        → List Str
        → AliasState S
        → AliasState S
    unfolding reconcile_account
    reconcile_aliases domains written lookup [] st = st
    reconcile_aliases domains written lookup (primary ∷ primaries) st =
        reconcile_aliases domains written lookup primaries
          (reconcile_account domains (written primary) (lookup primary) primary st)
