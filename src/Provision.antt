-- ===== src/Provision.antt =====
-- crates/jmapsmtp/src/did/provision.rs: who may have an account. `anchored` says whether an anchor is
-- configured. An envelope is the text that is kept of it, if what the request has is one.
use jmapsmtp.Prelude.{
  ℕ, Bool, true, false, Option, none, some, List, [], ◌∷◌, ◌++◌, Str, ◌==◌, not, ◌&&◌, ◌||◌, ltb,
  if◌then◌else◌, is_empty, length, text_eq, is_lower, is_digit,
}
use jmapsmtp.Result.{Result, ok, err, ◌>>=◌}
use jmapsmtp.Map
use jmapsmtp.Map.{Map}
use jmapsmtp.Keys.{text_ord}
use jmapsmtp.CustomDomain.{all}
use jmapsmtp.Config.{DomainConfig, provision_domain, domain_config}
use jmapsmtp.Login.{Codec, Relay, account_dir, read_auth_hash}
use jmapsmtp.Login.Handlers.{dir_at, no_keys, Verdict, confirmed, conflict, invalid, failed}
use jmapsmtp.Devices.{list_device_keys}
use jmapsmtp.WebvhId.{WebvhId, ParseError, parse}
pub mod Service
pub mod Lifecycle

pub record ProvisionRequest : Type 0 where
  pub username : Str
  pub domain : Str
  pub did : Str
  pub bind_ts : ℕ
  pub did_sig : Str
  pub device_pub_key : Str
  pub device_label : Str
  pub device_vouch_ts : ℕ
  pub device_vouch_sig : Str
  pub provision_secret : Str
  pub envelope : Option Str

pub data Refusal : Type 0 where
  invalid_username : Refusal
  device_credential_required : Refusal
  did_required : Refusal
  did_sig_required : Refusal
  unknown_domain : Refusal
  not_available : Refusal
  domain_not_open : Refusal
  username_taken : Refusal
  did_binding_rejected : Refusal
  identity_owned_by_another : Refusal
  anchor_unavailable : Refusal
  device_vouch_rejected : Refusal
  did_method_needs_anchor : Refusal
  did_domain_not_authorized : Refusal
  did_not_readable : Refusal

unfoldable pub status : Refusal → ℕ
status invalid_username = 400
status device_credential_required = 400
status did_required = 400
status did_sig_required = 400
status unknown_domain = 400
status did_not_readable = 400
status not_available = 403
status domain_not_open = 403
status did_domain_not_authorized = 403
status did_binding_rejected = 401
status device_vouch_rejected = 401
status did_method_needs_anchor = 401
status username_taken = 409
status identity_owned_by_another = 409
status anchor_unavailable = 503

abbrev pub is_name_byte : ℕ → Bool
is_name_byte c = is_lower c || is_digit c || c == b'_' || c == b'-'

unfoldable pub valid_username : Str → Bool
valid_username [] = false
valid_username (b ∷ name) =
    not (ltb 31 (length (b ∷ name))) && (is_lower b || is_digit b) && all is_name_byte name

-- What a verdict of the anchor on the claim of a name means for the request.
unfoldable pub provision_refusal : Verdict → Result Refusal Unit
provision_refusal confirmed = ok tt
provision_refusal conflict = err identity_owned_by_another
provision_refusal invalid = err did_binding_rejected
provision_refusal failed = err anchor_unavailable

abbrev pub require : Bool → Refusal → Result Refusal Unit
require true refusal = ok tt
require false refusal = err refusal

module _ (c : Codec) where
  unfoldable pub validate : Bool → ProvisionRequest → Result Refusal Unit
  unfolding valid_username
  validate anchored req = do
    _ ← require (valid_username (c.to_lowercase (c.trim req.username))) invalid_username
    _ ←
        require (not (is_empty req.device_pub_key || is_empty req.device_vouch_sig))
          device_credential_required
    _ ← require (not (is_empty req.did)) did_required
    require (not (anchored && is_empty req.did_sig)) did_sig_required

  abbrev found : Refusal → Option (Str × DomainConfig) → Result Refusal (Str × DomainConfig)
  found refusal none = err refusal
  found refusal (some d) = ok d

  abbrev named : Str → Option DomainConfig → Option (Str × DomainConfig)
  named name none = none
  named name (some d) = some (name, d)

  unfoldable pub resolve_domain :
      Map Str DomainConfig → Map Str DomainConfig → Str → Result Refusal (Str × DomainConfig)
  unfolding provision_domain domain_config
  resolve_domain domains dynamic raw =
      let requested = c.to_lowercase (c.trim raw) in
      if is_empty requested
      then found not_available (provision_domain domains)
      else found unknown_domain (named requested (domain_config domains dynamic requested))

  abbrev administered : Map Str DomainConfig → Result ParseError WebvhId → Result Refusal Unit
  administered domains (err e) = err did_not_readable
  administered domains (ok id) =
      require (Map.contains_key id.domain domains) did_domain_not_authorized

  unfoldable pub did_domain_gate : Map Str DomainConfig → Str → Result Refusal Unit
  unfolding parse
  did_domain_gate domains did = administered domains (parse c.from_utf8 c.trim did)

  unfoldable pub may_provision :
      Map Str DomainConfig → DomainConfig → Str → Str → Result Refusal Unit
  unfolding did_domain_gate
  may_provision domains d did submitted_secret =
      if d.authorized_did_domain
      then did_domain_gate domains did
      else if d.allow_provision
      then ok tt
      else require
          (not (is_empty d.provision_secret || not (text_eq d.provision_secret submitted_secret)))
          domain_not_open

  unfoldable pub name_is_taken : Str → Str → Bool → Relay → Bool
  unfolding read_auth_hash list_device_keys dir_at account_dir
  name_is_taken domain localpart already_registered r =
      already_registered
      || not (is_empty (read_auth_hash c domain localpart r.dirs))
      || not (no_keys (list_device_keys (dir_at (account_dir domain localpart) r)))

-- Whether the account is bound to its identity at the anchor.
unfoldable pub did_bound : Bool → ProvisionRequest → Bool
did_bound anchored req = not (is_empty req.did) && anchored
