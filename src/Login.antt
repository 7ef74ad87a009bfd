-- ===== src/Login.antt =====
-- Credentials: crates/jmapsmtp/src/auth_env.rs, did/devices.rs and bearer.rs, the tokens of
-- crates/jmapserver/src/authtoken.rs, and the handlers of crates/jmapsmtp/src/server.rs that log in, list
-- and revoke. A directory of an account is named by its domain and local part; what the file system
-- makes of dots in a name is not modelled.
use jmapsmtp.Prelude.{
  ℕ, Bool, true, false, Option, none, some, List, [], ◌∷◌, ◌++◌, Str, codes, not, ◌&&◌, ◌||◌,
  if◌then◌else◌, is_empty, is_some, text_eq, split_once, strip_prefix, trim,
}
use jmapsmtp.Map
use jmapsmtp.Map.{Map}
use jmapsmtp.Map.Set
use jmapsmtp.Map.Set.{Set}
use jmapsmtp.Keys.{text_ord}
use jmapsmtp.Store.{Write, written, refused, damaged, succeeded}
use jmapsmtp.SessionNonce.{SessionNonceStore, consume, issue, nonce_ttl_secs}
use jmapsmtp.Devices.{
  DeviceKey, DeviceDir, Removal, Crypto, write_device_key, list_device_keys, remove_device_key,
  verify_device_session, issue_session_token, check_session_token,
}
pub mod Handlers
pub mod Basic

infixl 5 ◌>>=◌
abbrev pub ◌>>=◌ : {A B : Type 0} → Option A → (A → Option B) → Option B
none >>= f = none
some a >>= f = f a

-- What a configuration says of a domain: its accounts, each with its aliases.
abbrev pub Domains : Type 0
Domains = Map Str (Map Str (List Str))

-- The files of an account that credentials live in.
pub record AccountDir : Type 0 where
  pub auth_token_hash : Option Str
  pub device_dir : DeviceDir

abbrev pub no_files : AccountDir
no_files = record {
  auth_token_hash = none;
  device_dir = record { devices = []; sessions = []; others = [] };
}

pub record Relay : Type 0 where
  pub dirs : Map Str AccountDir
  pub nonces : SessionNonceStore
  pub dynamic : Set Str

unfoldable pub account_dir : Str → Str → Str
account_dir domain localpart = domain ++ b'/' ∷ localpart

abbrev or_no_files : Option AccountDir → AccountDir
or_no_files none = no_files
or_no_files (some files) = files

unfoldable pub files_at : Str → Map Str AccountDir → AccountDir
files_at dir dirs = or_no_files (Map.lookup dir dirs)

abbrev or_empty : Option Str → Str
or_empty none = []
or_empty (some s) = s

-- What the crates and the standard library supply: the four decoders of a token in the order that they
-- are tried, SHA-256, UTF-8 and case.
pub record Codec : Type 0 where
  pub crypto : Crypto
  pub standard_no_pad : Str → Option Str
  pub url_safe : Str → Option Str
  pub url_safe_no_pad : Str → Option Str
  pub sha256 : Str → Str
  pub from_utf8 : Str → Option Str
  pub to_lowercase : Str → Str
  pub trim : Str → Str

abbrev or_else : Option Str → Option Str → Option Str
or_else none b = b
or_else (some s) b = some s

pub data DeviceError : Type 0 where
  missing_fields : DeviceError
  no_such_account : DeviceError
  session_rejected : DeviceError
  vouch_rejected : DeviceError
  anchor_required : DeviceError
  anchor_unavailable : DeviceError
  id_required : DeviceError
  unauthorized : DeviceError

unfoldable pub status : DeviceError → ℕ
status missing_fields = 400
status id_required = 400
status unauthorized = 401
status session_rejected = 401
status vouch_rejected = 401
status no_such_account = 404
status anchor_required = 503
status anchor_unavailable = 503

abbrev pub session_token_ttl_secs : ℕ
session_token_ttl_secs = 2592000

pub record SessionRequest : Type 0 where
  pub username : Str
  pub domain : Str
  pub did : Str
  pub device_pub_key : Str
  pub nonce : Str
  pub ts : ℕ
  pub sig : Str

pub record VouchRequest : Type 0 where
  pub username : Str
  pub domain : Str
  pub did : Str
  pub device_pub_key : Str
  pub label : Str
  pub bind_ts : ℕ
  pub sig : Str

pub record SessionResponse : Type 0 where
  pub email : Str
  pub token : Str
  pub expires_in : ℕ

-- The guard of the routes for operators.
pub data Bearer : Type 0 where
  allow : Bearer
  deny : Bearer

unfoldable pub check : Str → Str → Bearer
unfolding strip_prefix text_eq
check token header = if is_empty token then deny else elim (strip_prefix (codes "Bearer ") header) [
  | none ↦ deny
  | some presented ↦ if text_eq presented token then allow else deny
]

module _ (c : Codec) where
  unfoldable pub hash_auth_token : Str → Str
  hash_auth_token token = c.crypto.encode_base64 (c.sha256 token)

  unfoldable pub verify_auth_token : Str → Str → Bool
  verify_auth_token token stored_hash = elim (c.crypto.decode_base64 stored_hash) [
    | none ↦ false
    | some stored ↦ text_eq (c.sha256 token) stored
  ]

  unfoldable pub decode_auth_token : Str → Option Str
  decode_auth_token s =
      or_else (c.crypto.decode_base64 s)
        (or_else (c.standard_no_pad s) (or_else (c.url_safe s) (c.url_safe_no_pad s)))

  unfoldable pub read_auth_hash : Str → Str → Map Str AccountDir → Str
  unfolding account_dir files_at
  read_auth_hash domain localpart dirs =
      c.trim (or_empty (files_at (account_dir domain localpart) dirs).auth_token_hash)

  abbrev is_configured : Str → Option (Map Str (List Str)) → Bool
  is_configured localpart none = false
  is_configured localpart (some accounts) = Map.contains_key localpart accounts

  abbrev verified : Str → Str → Option Str → Option Str
  verified username hash none = none
  verified username hash (some token) = if verify_auth_token token hash then some username else none

  -- The password against the stored hash, for an account that is known.
  unfoldable pub check_password : Domains → Str → Str → Str → Str → Relay → Option Str
  unfolding read_auth_hash decode_auth_token verify_auth_token
  check_password domains username localpart domain password r =
      let known =
        is_configured localpart (Map.lookup domain domains) || Set.contains username r.dynamic in
      let hash = read_auth_hash domain localpart r.dirs in
      if not known
      then none
      else if is_empty hash
      then none
      else verified username hash (decode_auth_token password)

  unfoldable pub authenticate : Domains → Str → Str → ℕ → Relay → Option Str
  unfolding check_session_token check_password account_dir files_at
  authenticate domains raw_username password now r =
      let username = c.to_lowercase raw_username in
      elim (split_once b'@' username) [
        | none ↦ none
        | some (localpart, domain) ↦
            let dir = (files_at (account_dir domain localpart) r.dirs).device_dir in
            if is_some (check_session_token c.crypto password now dir)
            then some username
            else check_password domains username localpart domain password r
      ]

  -- `authenticate` of the server: the domain and the local part that HTTP Basic credentials stand for.
  unfoldable pub authenticate_basic : Domains → Option Str → ℕ → Relay → Option (Str × Str)
  unfolding authenticate
  authenticate_basic domains header now r = do
    value ← header
    encoded ← strip_prefix (codes "Basic ") value
    bytes ← c.crypto.decode_base64 encoded
    decoded ← c.from_utf8 bytes
    (username, password) ← split_once b':' decoded
    id ← authenticate domains username password now r
    (localpart, domain) ← split_once b'@' id
    some (domain, localpart)
