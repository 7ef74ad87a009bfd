-- ===== src/Examples/Provisioned.antt =====
-- The making, the removal and the move of an account.
use jmapsmtp.Prelude.{
  ℕ, true, false, Option, none, some, [], ◌∷◌, ◌++◌, Str, codes, ◌≡◌, ◌≢◌, refl, sym, ap, ◌∙◌,
  arith, if◌then◌else◌, ◌||◌, text_eq, text_compare, split_once, strip_prefix,
}
use jmapsmtp.Result.{Result, ok, err}
use jmapsmtp.Map
use jmapsmtp.Map.Set
use jmapsmtp.Base58
use jmapsmtp.Keys.{text_ord}
use jmapsmtp.Store.{written}
use jmapsmtp.Config.{DomainConfig, logins}
use jmapsmtp.Accounts
use jmapsmtp.Accounts.{AccountStore, points_at}
use jmapsmtp.Login.{authenticate_basic, account_dir, files_at}
use jmapsmtp.Login.Handlers.{post, confirmed}
use jmapsmtp.Provision.{ProvisionRequest}
use jmapsmtp.Provision.Service.{
  Service, World, Plan, address, plan_provision, account_provision, read_aliases,
}
use jmapsmtp.Devices.{has_device_key}
use jmapsmtp.Login.Handlers.{dir_at}
use jmapsmtp.Provision.{did_bound}
use jmapsmtp.Provision.Service.{created}
use jmapsmtp.Provision.Service.Creation.{leads}
use jmapsmtp.Provision.Service.Created.{resolve-account_provision, resolve-kept}
use jmapsmtp.Provision.Lifecycle.{
  LifecycleAnswer, gone, Moves, migrated, primary_swap_failed, account_delete,
  account_migrate_to_scid, renamed_account, scid_of,
}
use jmapsmtp.Provision.Lifecycle.Deleting.{account_delete_lem}
use jmapsmtp.Provision.Lifecycle.Migrating.{
  IsSame, IsFree, resolve-account_migrate_to_scid, account_migrate_to_scid-IsSame,
}
use jmapsmtp.Examples.Keys.{codec, dir}

abbrev open_domain : DomainConfig
open_domain = record {
  dkim_selector = [];
  accounts = [];
  allow_provision = true;
  provision_secret = [];
  authorized_did_domain = false;
}

abbrev world : World ℕ
world = record {
  codec = codec;
  domains = (codes "x", open_domain) ∷ [];
  anchored = true;
  claim = λ localpart domain req host. confirmed;
  vouch = λ localpart domain req. confirmed;
  store_at = λ dir. some 7;
  put_inbox = λ email store. store;
  device_write = written;
  aliases_written = true;
  envelope_written = true;
  now = 100;
}

abbrev ann : AccountStore ℕ
ann = record {
  email = codes "ann@x";
  domain = codes "x";
  localpart = codes "ann";
  dir = codes "x/ann";
  store = 3;
}

abbrev service : Service ℕ
service = record {
  state = record {
    accounts = record {
      stores = (codes "ann@x", ann) ∷ [];
      aliases = (codes "ann@x", codes "ann@x") ∷ (codes "info@x", codes "ann@x") ∷ [];
    };
    files = [];
  };
  relay = record { dirs = []; nonces = []; dynamic = [] };
  envelopes = [];
  dynamic_domains = [];
}

abbrev scid : Str
scid = codes "1111111111111111111111111111111111"

abbrev projected : Str
projected = codes "yyyyyyyyyyyyyyyyyyyyyyyyyyyyyyyyyyyyyyyyyyyyyyyyyyyyyyy"

abbrev request : ProvisionRequest
request = record {
  username = codes "bob";
  domain = codes "x";
  did = codes "did:webvh:" ++ scid ++ codes ":x:bob";
  bind_ts = 90;
  did_sig = codes "s";
  device_pub_key = codes "phone";
  device_label = codes "Phone";
  device_vouch_ts = 90;
  device_vouch_sig = codes "v";
  provision_secret = [];
  envelope = none;
}

abbrev plan : Plan
plan = record { domain = codes "x"; localpart = projected; username = codes "bob" }

planned : plan_provision world request (codes "x") service ≡ ok plan
unfolding plan_provision Map.lookup text_compare Map.Set.contains text_eq Map.values Base58.repeat
planned = refl

resolve-account_provision_example :
    ((account_provision world post (some request) (codes "x") service).1
      ≡ created (address projected (codes "x")) (did_bound true request))
    × ((a : Str)
        → Accounts.resolve codec.to_lowercase a
            (account_provision world post (some request) (codes "x") service).0.state.accounts
          ≡ leads world plan 7 a service.state.accounts)
    × (has_device_key (codes "phone") (
          dir_at
            (account_dir (codes "x") projected)
            (account_provision world post (some request) (codes "x") service).0.relay)
        ≡ true)
unfolding Map.contains_key Map.lookup text_compare read_aliases
resolve-account_provision_example =
    resolve-account_provision world plan request service (codes "x") 7 planned refl refl refl refl
      (refl, (refl, tt))

-- The address of another account is still delivered to it.
resolve-kept_example :
    Accounts.resolve codec.to_lowercase
      (codes "info@x")
      (account_provision world post (some request) (codes "x") service).0.state.accounts
    ≡ some ann
unfolding Map.contains_key Map.lookup text_compare Accounts.resolve read_aliases
resolve-kept_example =
    resolve-kept world plan request service (codes "x") 7 (codes "info@x") ann planned refl refl
      refl refl refl (refl, (refl, tt)) (refl, tt) refl

-- The service with an account that has a session.
abbrev with_session : Service ℕ
with_session = record service {
  relay = record {
    dirs = (codes "x/ann", record { auth_token_hash = none; device_dir = dir }) ∷ [];
    nonces = [];
    dynamic = codes "ann@x" ∷ [];
  };
}

abbrev header : Option Str
header = some (codes "Basic ann@x:t")

abbrev early : World ℕ
early = record world { now = 5 }

account_delete_lem_example :
    ((a : Str) (account : AccountStore ℕ)
      → Accounts.resolve codec.to_lowercase a
          (account_delete early post header gone with_session).0.state.accounts
        ≡ some account
      → account.email ≢ codes "ann@x")
    × ((later : Option Str) (now : ℕ)
        → authenticate_basic codec
            (logins early.domains)
            later
            now
            (account_delete early post header gone with_session).0.relay
          ≢ some (codes "x", codes "ann"))
unfolding Map.lookup text_compare authenticate_basic account_delete strip_prefix split_once
account_delete_lem_example =
    account_delete_lem early header gone with_session (codes "x") (codes "ann") refl refl (refl, tt)
      refl

abbrev moves : Moves
moves = record {
  target_exists = false;
  renamed = true;
  renamed_back = true;
  aliases_written = true;
}

abbrev did : Option Str
did = some request.did

resolve-account_migrate_to_scid_example :
    ((account_migrate_to_scid early post header did moves with_session).1
      ≡ migrated (address projected (codes "x")))
    × ((a : Str)
        → Accounts.resolve codec.to_lowercase a
            (account_migrate_to_scid early post header did moves with_session).0.state.accounts
          ≡ (if text_eq a (address projected (codes "x"))
                || text_eq a (codes "ann@x")
                || points_at (codes "ann@x") (Map.lookup a with_session.state.accounts.aliases)
              then some (renamed_account early (codes "x") projected 7)
              else Accounts.resolve codec.to_lowercase a with_session.state.accounts))
    × (files_at
          (account_dir (codes "x") projected)
          (account_migrate_to_scid early post header did moves with_session).0.relay.dirs
        ≡ files_at (codes "x/ann") with_session.relay.dirs)
unfolding Map.lookup Map.contains_key text_compare authenticate_basic strip_prefix split_once
    scid_of text_eq Base58.repeat
resolve-account_migrate_to_scid_example =
    resolve-account_migrate_to_scid early moves (codes "x") (codes "ann") projected with_session
      header did 7 refl refl (λ e. ground arith) refl refl refl refl refl (refl, (refl, tt))

-- The table has no account of the address of these credentials.
abbrev unlisted : Service ℕ
unlisted = record with_session {
  state = record { accounts = record { stores = []; aliases = [] }; files = [] };
}

swap_failed : (account_migrate_to_scid early post header did moves unlisted).1 ≡ primary_swap_failed
unfolding Map.lookup Map.contains_key text_compare authenticate_basic strip_prefix split_once
    account_migrate_to_scid scid_of text_eq Base58.repeat
swap_failed = refl

abbrev domain_named : Option (Str × Str) → Str
domain_named none = []
domain_named (some (domain, localpart)) = domain

abbrev name_of : Result LifecycleAnswer Str → Str
name_of (ok name) = name
name_of (err e) = []

-- The request moves to the directory of its identity, which has no files.
account_dir-IsFree :
    (domain localpart target : Str)
    → ◌≡◌ {A = Option (Str × Str)} (some (codes "x", codes "ann")) (some (domain, localpart))
    → ◌≡◌ {A = Result LifecycleAnswer Str} (ok projected) (ok target)
    → IsFree (account_dir domain target) unlisted
unfolding Map.lookup text_compare account_dir
account_dir-IsFree domain localpart target a s =
    let there : codes "x" ≡ domain = ap domain_named a in
    let name : projected ≡ target = ap name_of s in rw (← there, ← name) (refl, refl, refl)

account_migrate_to_scid-IsSame_example :
    IsSame (account_migrate_to_scid early post header did moves unlisted).0 unlisted
unfolding Map.lookup text_compare authenticate_basic strip_prefix split_once scid_of text_eq
    Base58.repeat
account_migrate_to_scid-IsSame_example =
    account_migrate_to_scid-IsSame early moves unlisted post header did
      (λ email e. let both : primary_swap_failed ≡ migrated email = sym swap_failed ∙ e in cc) refl
      account_dir-IsFree
