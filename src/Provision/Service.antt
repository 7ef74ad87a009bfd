-- ===== src/Provision/Service.antt =====
-- The accounts of a running relay, and `account_provision` and `register_dyn_account` of
-- crates/jmapsmtp/src/server.rs. The JSON of a body is read outside the model.
use jmapsmtp.Prelude.{
  ℕ, Bool, true, false, Option, none, some, List, [], ◌∷◌, ◌++◌, Str, not, ◌&&◌, ◌||◌,
  if◌then◌else◌, is_empty, is_some, keep_if, map, split, text_eq,
}
use jmapsmtp.Result.{Result, ok, err, ◌>>=◌}
use jmapsmtp.Map
use jmapsmtp.Map.{Map}
use jmapsmtp.Map.Set
use jmapsmtp.Keys.{text_ord}
use jmapsmtp.Store.{Write}
use jmapsmtp.Config.{DomainConfig}
use jmapsmtp.Accounts
use jmapsmtp.Accounts.{AccountStore, Accounts, aliases_for}
use jmapsmtp.Aliases.{AliasState, write_aliases}
use jmapsmtp.Login.{Codec, Relay, VouchRequest, account_dir}
use jmapsmtp.Login.Handlers.{
  Method, get, post, delete, other, Verdict, VouchPath, anchor, impossible, vouch_path,
  write_device, device_error,
}
use jmapsmtp.WebvhId.{WebvhId, ParseError, parse}
use jmapsmtp.ScidLocalpart.{to_localpart}
use jmapsmtp.Provision.{
  ProvisionRequest, Refusal, username_taken, did_method_needs_anchor, device_vouch_rejected,
  validate, resolve_domain, may_provision, name_is_taken, provision_refusal, require, did_bound,
}
pub mod Checked
pub mod Creation
pub mod Created

pub record Service (S : Type 0) : Type 0 where
  pub state : AliasState S
  pub relay : Relay
  pub envelopes : Map Str Str
  pub dynamic_domains : Map Str DomainConfig

-- What lies outside: the configuration, the anchor, the stores of the file system, and how writes fare.
pub record World (S : Type 0) : Type 0 where
  pub codec : Codec
  pub domains : Map Str DomainConfig
  pub anchored : Bool
  pub claim : Str → Str → ProvisionRequest → Str → Verdict
  pub vouch : Str → Str → ProvisionRequest → Verdict
  pub store_at : Str → Option S
  pub put_inbox : Str → S → S
  pub device_write : Write
  pub aliases_written : Bool
  pub envelope_written : Bool
  pub now : ℕ

-- What a handler answers.
pub data ProvisionAnswer : Type 0 where
  created : Str → Bool → ProvisionAnswer
  refused : Refusal → ProvisionAnswer
  internal_error : ProvisionAnswer
  method_not_allowed : ProvisionAnswer
  invalid_json : ProvisionAnswer

-- Where a request leads: the domain, the local part of the account, and the name of the user.
pub record Plan : Type 0 where
  pub domain : Str
  pub localpart : Str
  pub username : Str

abbrev pub address : Str → Str → Str
address localpart domain = localpart ++ b'@' ∷ domain

module _ {S : Type 0} (w : World S) where
  open w use {codec, domains}

  -- The lines of a file of aliases.
  unfoldable pub read_aliases : Str → Map Str Str → List Str
  read_aliases dir files = elim (Map.lookup dir files) [
    | none ↦ []
    | some text ↦
        keep_if (λ l. not (is_empty l))
          (map (λ l. codec.to_lowercase (codec.trim l)) (split b'\n' text))
  ]

  unfoldable pub register_dyn_account : Str → Str → Service S → Service S
  unfolding account_dir read_aliases Accounts.insert
  register_dyn_account localpart domain svc =
      let email = address localpart domain in
      let dir = account_dir domain localpart in
      elim (w.store_at dir) [
        | none ↦ svc
        | some store ↦
            let account : AccountStore S = record {
              email = email;
              domain = domain;
              localpart = localpart;
              dir = dir;
              store = w.put_inbox email store;
            } in
            let accounts =
              Accounts.insert codec.to_lowercase account (read_aliases dir svc.state.files)
                svc.state.accounts in
            record svc {
              state = record svc.state { accounts = accounts };
              relay = record svc.relay {
                dynamic = Set.insert (codec.to_lowercase email) svc.relay.dynamic;
              };
            }
      ]

  abbrev localpart_of : Result ParseError WebvhId → Option Str
  localpart_of (err e) = none
  localpart_of (ok id) = to_localpart id.scid

  abbrev or_name : Option Str → Str → Str
  or_name none name = name
  or_name (some localpart) name = localpart

  -- The projection of the identifier, or else the name.
  unfoldable pub primary_localpart : Str → Str → Str
  unfolding parse to_localpart
  primary_localpart did username =
      or_name (localpart_of (parse codec.from_utf8 codec.trim did)) username

  -- Whether the name leads to another account.
  abbrev pub is_taken_by_other : Str → Option (AccountStore S) → Bool
  is_taken_by_other primary none = false
  is_taken_by_other primary (some existing) = not (text_eq existing.email primary)

  abbrev path_exists : VouchPath → Result Refusal Unit
  path_exists anchor = ok tt
  path_exists impossible = err did_method_needs_anchor

  -- The account that a request asks for, if it may have one.
  unfoldable pub target : ProvisionRequest → Service S → Result Refusal Plan
  unfolding validate resolve_domain may_provision primary_localpart
  target req svc = do
    _ ← validate codec w.anchored req
    let username = codec.to_lowercase (codec.trim req.username)
    (domain, d) ← resolve_domain codec domains svc.dynamic_domains req.domain
    _ ← may_provision codec domains d req.did req.provision_secret
    ok (record {
      domain = domain;
      localpart = primary_localpart req.did username;
      username = username;
    })

  -- Whether the account is there already.
  unfoldable pub is_registered : Str → Service S → Bool
  unfolding Accounts.get
  is_registered primary svc =
      Set.contains (codec.to_lowercase primary) svc.relay.dynamic
      || is_some (Accounts.get codec.to_lowercase primary svc.state.accounts)

  -- Nobody has the address or the name, and the anchor agrees.
  unfoldable pub admit : Plan → ProvisionRequest → Str → Service S → Result Refusal Unit
  unfolding is_registered name_is_taken vouch_path provision_refusal device_error Accounts.resolve
  admit p req host svc = do
    let primary = address p.localpart p.domain
    let already = is_registered primary svc
    _ ← require (not (name_is_taken codec p.domain p.localpart already svc.relay)) username_taken
    let existing =
        Accounts.resolve codec.to_lowercase (address p.username p.domain) svc.state.accounts
    _ ← require (not (is_taken_by_other primary existing)) username_taken
    _ ← path_exists (vouch_path w.anchored)
    _ ← provision_refusal (w.claim p.localpart p.domain req host)
    require (not (is_some (device_error (w.vouch p.localpart p.domain req)))) device_vouch_rejected

  abbrev admitted : Plan → Result Refusal Unit → Result Refusal Plan
  admitted p (err r) = err r
  admitted p (ok u) = ok p

  -- All that is checked before anything is written.
  unfoldable pub plan_provision : ProvisionRequest → Str → Service S → Result Refusal Plan
  unfolding target admit
  plan_provision req host svc = target req svc >>= λ p. admitted p (admit p req host svc)

  -- The name leads to the account, if it is not the local part itself.
  unfoldable pub alias_name : Plan → Service S → Service S
  unfolding Accounts.add_alias aliases_for write_aliases
  alias_name p svc =
      let primary = address p.localpart p.domain in
      let accounts =
        (Accounts.add_alias codec.to_lowercase (address p.username p.domain) primary
          svc.state.accounts).0 in
      if text_eq p.localpart p.username then svc else record svc {
        state = record {
          accounts = accounts;
          files =
              write_aliases w.aliases_written p.domain p.localpart
                (aliases_for primary accounts.aliases) svc.state.files;
        };
      }

  abbrev keep_envelope : Str → Option Str → Map Str Str → Map Str Str
  keep_envelope dir none envelopes = envelopes
  keep_envelope dir (some text) envelopes =
      if w.envelope_written then Map.insert dir text envelopes else envelopes

  abbrev vouch_of : Plan → ProvisionRequest → VouchRequest
  vouch_of p req = record {
    username = p.localpart;
    domain = p.domain;
    did = req.did;
    device_pub_key = req.device_pub_key;
    label = req.device_label;
    bind_ts = req.device_vouch_ts;
    sig = req.device_vouch_sig;
  }

  abbrev settle : Plan → ProvisionRequest → Service S → Relay × Bool → Service S × ProvisionAnswer
  settle p req svc (relay, false) = (record svc { relay = relay }, internal_error)
  settle p req svc (relay, true) = (
    alias_name p (
        register_dyn_account p.localpart p.domain (record svc {
          relay = relay;
          envelopes = keep_envelope (account_dir p.domain p.localpart) req.envelope svc.envelopes;
        })),
    created (address p.localpart p.domain) (did_bound w.anchored req),
  )

  unfoldable pub create_account : Plan → ProvisionRequest → Service S → Service S × ProvisionAnswer
  unfolding account_dir write_device register_dyn_account alias_name did_bound
  create_account p req svc = settle p req svc (
      write_device w.device_write (account_dir p.domain p.localpart) (vouch_of p req) w.now
        svc.relay)

  -- `req` is what the body is read as.
  unfoldable pub account_provision :
      Method → Option ProvisionRequest → Str → Service S → Service S × ProvisionAnswer
  unfolding plan_provision create_account
  account_provision post none host svc = (svc, invalid_json)
  account_provision post (some req) host svc = elim (plan_provision req host svc) [
    | err r ↦ (svc, refused r)
    | ok p ↦ create_account p req svc
  ]
  account_provision _ req host svc = (svc, method_not_allowed)
