-- ===== src/Provision/Lifecycle.antt =====
-- The removal of an account and its move to the local part of its identity: `account_delete` and
-- `account_migrate_to_scid` of crates/jmapsmtp/src/server.rs. A directory is what the credentials, the file
-- of aliases and the envelope of an account are kept under; the file of mail is behind `store_at`.
use jmapsmtp.Prelude.{
  ℕ, Bool, true, false, Option, none, some, List, Str, ◌≡◌, not, if◌then◌else◌, text_eq,
}
use jmapsmtp.Result.{Result, ok, err}
use jmapsmtp.Map
use jmapsmtp.Map.{Map}
use jmapsmtp.Map.Set
use jmapsmtp.Keys.{text_ord}
use jmapsmtp.CustomDomain.{DomainError, may_self_delete}
use jmapsmtp.Config.{DomainConfig, domain_config, logins}
use jmapsmtp.Accounts
use jmapsmtp.Accounts.{AccountStore, Accounts, aliases_for}
use jmapsmtp.Aliases.{AliasState, write_aliases}
use jmapsmtp.Login.{AccountDir, Relay, account_dir, authenticate_basic}
use jmapsmtp.Login.Handlers.{Method, post}
use jmapsmtp.WebvhId.{WebvhId, ParseError, parse}
use jmapsmtp.ScidLocalpart.{to_localpart}
use jmapsmtp.Provision.Service.{Service, World, address}
pub mod Deleting
pub mod Renaming
pub mod Migrating

-- How the removal of a directory ends: it is not there any more, or an error left some of it.
pub data DirRemoval : Type 0 where
  gone : DirRemoval
  left : Option AccountDir → Option Str → Option Str → DirRemoval

-- How the steps of a move fare.
pub record Moves : Type 0 where
  pub target_exists : Bool
  pub renamed : Bool
  pub renamed_back : Bool
  pub aliases_written : Bool

pub data LifecycleAnswer : Type 0 where
  no_content : LifecycleAnswer
  migrated : Str → LifecycleAnswer
  method_not_allowed : LifecycleAnswer
  not_authorized : LifecycleAnswer
  not_deletable : DomainError → LifecycleAnswer
  failed_to_delete : LifecycleAnswer
  invalid_json : LifecycleAnswer
  not_a_webvh : LifecycleAnswer
  no_usable_scid : LifecycleAnswer
  already_primary : LifecycleAnswer
  target_taken : LifecycleAnswer
  rename_failed : LifecycleAnswer
  reopening_failed : LifecycleAnswer
  primary_swap_failed : LifecycleAnswer

-- The entry of a key, or its absence.
abbrev pub put_entry : {V : Type 0} → Str → Option V → Map Str V → Map Str V
put_entry k none m = Map.remove k m
put_entry k (some v) m = Map.insert k v m

-- `rename` of a directory.
abbrev pub moved : {V : Type 0} → Str → Str → Map Str V → Map Str V
moved old new m = put_entry new (Map.lookup old m) (Map.remove old m)

module _ {S : Type 0} where
  -- What each map has of a directory.
  abbrev pub put_dir : Str → Option AccountDir → Option Str → Option Str → Service S → Service S
  put_dir dir files aliases envelope svc = record svc {
    state = record svc.state { files = put_entry dir aliases svc.state.files };
    relay = record svc.relay { dirs = put_entry dir files svc.relay.dirs };
    envelopes = put_entry dir envelope svc.envelopes;
  }

  unfoldable pub remove_dir : DirRemoval → Str → Service S → Service S
  remove_dir gone dir svc = put_dir dir none none none svc
  remove_dir (left files aliases envelope) dir svc = put_dir dir files aliases envelope svc

  unfoldable pub rename_dir : Bool → Str → Str → Service S → Service S
  rename_dir false old new svc = svc
  rename_dir true old new svc = record svc {
    state = record svc.state { files = moved old new svc.state.files };
    relay = record svc.relay { dirs = moved old new svc.relay.dirs };
    envelopes = moved old new svc.envelopes;
  }

module _ {S : Type 0} (w : World S) where
  open w use {codec, domains}

  abbrev accounts_of : Option DomainConfig → Option (Map Str (List Str))
  accounts_of none = none
  accounts_of (some d) = some d.accounts

  -- The routing goes first.
  abbrev pub unrouted : Str → Service S → Service S
  unrouted email svc = record svc {
    state = record svc.state { accounts = (Accounts.remove email svc.state.accounts).0 };
    relay = record svc.relay { dynamic = Set.remove (codec.to_lowercase email) svc.relay.dynamic };
  }

  -- What a removal answers, and the claim that is released at the anchor.
  abbrev deleted : DirRemoval → Str → Str → LifecycleAnswer × Option (Str × Str)
  deleted gone domain localpart =
      (no_content, if w.anchored then some (localpart, domain) else none)
  deleted (left files aliases envelope) domain localpart = (failed_to_delete, none)

  unfoldable pub delete_account :
      DirRemoval → Str → Str → Service S → Service S × LifecycleAnswer × Option (Str × Str)
  unfolding Accounts.remove remove_dir account_dir
  delete_account removal domain localpart svc =
      let (outcome, released) = deleted removal domain localpart in
      let svc' = unrouted (address localpart domain) svc in
      (remove_dir removal (account_dir domain localpart) svc', outcome, released)

  unfoldable pub account_delete :
      Method
      → Option Str
      → DirRemoval
      → Service S
      → Service S × LifecycleAnswer × Option (Str × Str)
  unfolding authenticate_basic logins domain_config may_self_delete delete_account
  account_delete post header removal svc =
      elim (authenticate_basic codec (logins domains) header w.now svc.relay) [
        | none ↦ (svc, not_authorized, none)
        | some (domain, localpart) ↦
            elim (may_self_delete (accounts_of (domain_config domains svc.dynamic_domains domain))
              localpart) [
                | err e ↦ (svc, not_deletable e, none)
                | ok u ↦ delete_account removal domain localpart svc
              ]
      ]
  account_delete _ header removal svc = (svc, method_not_allowed, none)

  -- The address is another one now, and so is the list of aliases that is kept.
  abbrev swapped :
      Moves → Str → Str → Str → Service S → Accounts S × Bool → Service S × LifecycleAnswer
  swapped io domain localpart scid svc (t, false) = (
    rename_dir io.renamed_back (account_dir domain scid) (account_dir domain localpart) svc,
    primary_swap_failed,
  )
  swapped io domain localpart scid svc (t, true) = (
    record svc {
      state = record {
        accounts = t;
        files =
            write_aliases io.aliases_written domain scid
              (aliases_for (address scid domain) t.aliases) svc.state.files;
      };
      relay = record svc.relay {
        dynamic =
            Set.insert (codec.to_lowercase (address scid domain))
              (Set.remove (codec.to_lowercase (address localpart domain)) svc.relay.dynamic);
      };
    },
    migrated (address scid domain),
  )

  -- The account under its new name.
  abbrev pub renamed_account : Str → Str → S → AccountStore S
  renamed_account domain scid store = record {
    email = address scid domain;
    domain = domain;
    localpart = scid;
    dir = account_dir domain scid;
    store = store;
  }

  abbrev reopened : Moves → Str → Str → Str → Service S → Option S → Service S × LifecycleAnswer
  reopened io domain localpart scid svc none = (
    rename_dir io.renamed_back (account_dir domain scid) (account_dir domain localpart) svc,
    reopening_failed,
  )
  reopened io domain localpart scid svc (some store) = swapped io domain localpart scid svc (
      Accounts.migrate_primary (address localpart domain) (renamed_account domain scid store)
        svc.state.accounts)

  -- The move to a local part that is known.
  unfoldable pub migrate : Moves → Str → Str → Str → Service S → Service S × LifecycleAnswer
  unfolding account_dir rename_dir Accounts.migrate_primary aliases_for write_aliases
  migrate io domain localpart scid svc =
      if text_eq scid localpart
      then (svc, already_primary)
      else if io.target_exists
      then (svc, target_taken)
      else if not io.renamed
      then (svc, rename_failed)
      else reopened io domain localpart scid
          (rename_dir true (account_dir domain localpart) (account_dir domain scid) svc)
          (w.store_at (account_dir domain scid))

  abbrev usable : Result ParseError WebvhId → Result LifecycleAnswer Str
  usable (err e) = err not_a_webvh
  usable (ok id) = elim (to_localpart id.scid) [ none ↦ err no_usable_scid | some scid ↦ ok scid ]

  -- The local part that a request asks for; `did` is what the body is read as.
  unfoldable pub scid_of : Option Str → Result LifecycleAnswer Str
  unfolding parse to_localpart
  scid_of none = err invalid_json
  scid_of (some did) = usable (parse codec.from_utf8 codec.trim did)

  unfoldable pub account_migrate_to_scid :
      Method → Option Str → Option Str → Moves → Service S → Service S × LifecycleAnswer
  unfolding authenticate_basic logins scid_of migrate
  account_migrate_to_scid post header did io svc =
      elim (authenticate_basic codec (logins domains) header w.now svc.relay) [
        | none ↦ (svc, not_authorized)
        | some (domain, localpart) ↦ elim (scid_of did) [
          | err e ↦ (svc, e)
          | ok scid ↦ migrate io domain localpart scid svc
        ]
      ]
  account_migrate_to_scid _ header did io svc = (svc, method_not_allowed)
