-- ===== src/Login/Handlers.antt =====
-- The handlers that log in, list and revoke: crates/jmapsmtp/src/did/devices.rs, and `account_session`,
-- `account_session_challenge`, `account_devices` and `vouch_device` of crates/jmapsmtp/src/server.rs. The
-- JSON of a body is read, and the headers for browsers are set, outside the model.
use jmapsmtp.Prelude.{
  ℕ, Bool, true, false, Option, none, some, List, [], ◌∷◌, ◌++◌, Str, not, ◌||◌, if◌then◌else◌,
  is_empty, keep_if,
}
use jmapsmtp.Result.{Result, ok, err}
use jmapsmtp.Map
use jmapsmtp.Map.{Map}
use jmapsmtp.Keys.{text_ord}
use jmapsmtp.Store.{Write}
use jmapsmtp.SessionNonce.{consume, issue, nonce_ttl_secs}
use jmapsmtp.Devices.{
  DeviceKey, DeviceDir, Removal, write_device_key, list_device_keys, remove_device_key,
  verify_device_session, issue_session_token,
}
use jmapsmtp.Login.{
  Codec, Relay, Domains, AccountDir, SessionRequest, SessionResponse, VouchRequest, DeviceError,
  missing_fields, no_such_account, session_rejected, vouch_rejected, anchor_required,
  anchor_unavailable, id_required, unauthorized, account_dir, files_at, read_auth_hash,
  authenticate_basic, session_token_ttl_secs,
}
pub mod Session

-- Whether the list of the devices is empty.
abbrev pub no_keys : List DeviceKey → Bool
no_keys [] = true
no_keys (k ∷ ks) = false

unfoldable pub dir_at : Str → Relay → DeviceDir
unfolding files_at
dir_at dir r = (files_at dir r.dirs).device_dir

unfoldable pub with_dir : Str → DeviceDir → Relay → Relay
unfolding files_at
with_dir dir d r = record r {
  dirs = Map.insert dir (record (files_at dir r.dirs) { device_dir = d }) r.dirs;
}

-- `Verdict` of the anchor on a vouch.
pub data Verdict : Type 0 where
  confirmed : Verdict
  conflict : Verdict
  invalid : Verdict
  failed : Verdict

unfoldable pub device_error : Verdict → Option DeviceError
device_error confirmed = none
device_error invalid = some vouch_rejected
device_error conflict = some vouch_rejected
device_error failed = some anchor_unavailable

pub data VouchPath : Type 0 where
  anchor : VouchPath
  impossible : VouchPath

-- Whether an anchor is configured.
unfoldable pub vouch_path : Bool → VouchPath
vouch_path configured = if configured then anchor else impossible

unfoldable pub check_vouch : Bool → Result DeviceError VouchPath
unfolding vouch_path
check_vouch configured = elim (vouch_path configured) [
  | anchor ↦ ok anchor
  | impossible ↦ err anchor_required
]

unfoldable pub write_device : Write → Str → VouchRequest → ℕ → Relay → Relay × Bool
unfolding dir_at with_dir write_device_key
write_device outcome dir req now r =
    let key : DeviceKey = record { id = req.device_pub_key; label = req.label; created_at = now } in
    let (d, done) = write_device_key outcome key (dir_at dir r) in (with_dir dir d r, done)

-- What a handler answers.
pub data Response : Type 0 where
  no_content : Response
  refused : DeviceError → Response
  internal_error : Response
  method_not_allowed : Response
  not_authorized : Response
  keys : List DeviceKey → Response
  session : SessionResponse → Response
  challenge : Str → ℕ → Response

pub data Method : Type 0 where
  get : Method
  post : Method
  delete : Method
  other : Method

abbrev done_or : Relay × Bool → Relay × Response
done_or (r, true) = (r, no_content)
done_or (r, false) = (r, internal_error)

module _ (c : Codec) where
  -- The trimmed and folded local part and domain.
  unfoldable pub account_of : Str → Str → Str → Str → Str → Result DeviceError (Str × Str)
  account_of raw_username raw_domain did device_pub_key sig =
      let username = c.to_lowercase (c.trim raw_username) in
      let domain = c.to_lowercase (c.trim raw_domain) in
      if is_empty username
        || is_empty domain
        || is_empty did
        || is_empty device_pub_key
        || is_empty sig
      then err missing_fields
      else ok (username, domain)

  abbrev granted :
      Str → Str → Str → Relay → DeviceDir × Option Str → Relay × Result DeviceError SessionResponse
  granted dir username domain r (d, none) = (with_dir dir d r, err vouch_rejected)
  granted dir username domain r (d, some token) = (
    with_dir dir d r,
    ok (record {
      email = username ++ b'@' ∷ domain;
      token = token;
      expires_in = session_token_ttl_secs;
    }),
  )

  -- `raw` is the token that is drawn, `clock` the time that the store of the nonces reads.
  unfoldable pub login :
      Write
      → Str
      → SessionRequest
      → Str
      → ℕ
      → ℕ
      → Relay
      → Relay × Result DeviceError SessionResponse
  unfolding account_of account_dir dir_at with_dir verify_device_session issue_session_token consume
  login outcome raw req relay_host clock now r =
      let (nonces, live) = consume clock req.nonce r.nonces in
      let spent = record r { nonces = nonces } in
      if not live
      then (spent, err session_rejected)
      else elim (account_of req.username req.domain req.did req.device_pub_key req.sig) [
        | err e ↦ (spent, err e)
        | ok (username, domain) ↦
            let dir = account_dir domain username in
            if not (
              verify_device_session c.crypto (dir_at dir r) req.did req.device_pub_key relay_host
                req.nonce req.ts req.sig now)
            then (spent, err session_rejected)
            else granted dir username domain spent (
                issue_session_token c.crypto outcome raw req.device_pub_key session_token_ttl_secs
                  now (dir_at dir r))
      ]

  unfoldable pub account_exists : Str → Str → Relay → Bool
  unfolding read_auth_hash dir_at list_device_keys account_dir
  account_exists domain localpart r =
      not (is_empty (read_auth_hash c domain localpart r.dirs))
      || not (no_keys (list_device_keys (dir_at (account_dir domain localpart) r)))

  abbrev after_verdict :
      Write → Str → VouchRequest → ℕ → Relay → Option DeviceError → Relay × Response
  after_verdict outcome dir req now r (some e) = (r, refused e)
  after_verdict outcome dir req now r none = done_or (write_device outcome dir req now r)

  -- `configured` says whether there is an anchor, `verdict` what it says of a vouch.
  unfoldable pub vouch_device :
      Bool
      → (Str → Str → VouchRequest → Verdict)
      → Write
      → VouchRequest
      → ℕ
      → Relay
      → Relay × Response
  unfolding account_of account_exists check_vouch device_error write_device account_dir
  vouch_device configured verdict outcome req now r =
      elim (account_of req.username req.domain req.did req.device_pub_key req.sig) [
        | err e ↦ (r, refused e)
        | ok (localpart, domain) ↦
            if not (account_exists domain localpart r)
            then (r, refused no_such_account)
            else elim (check_vouch configured) [
              | err e ↦ (r, refused e)
              | ok path ↦
                  after_verdict outcome (account_dir domain localpart) req now r
                    (device_error (verdict localpart domain req))
            ]
      ]

  abbrev answer : Relay × Result DeviceError SessionResponse → Relay × Response
  answer (r, ok s) = (r, session s)
  answer (r, err e) = (r, refused e)

  unfoldable pub account_session :
      Method → Write → Str → SessionRequest → Str → ℕ → ℕ → Relay → Relay × Response
  unfolding login
  account_session post outcome raw req relay_host clock now r =
      answer (login outcome raw req relay_host clock now r)
  account_session _ outcome raw req relay_host clock now r = (r, method_not_allowed)

  -- `nonce` is what is drawn.
  unfoldable pub account_session_challenge : Method → Str → ℕ → Relay → Relay × Response
  unfolding issue
  account_session_challenge get nonce now r =
      (record r { nonces = issue now nonce r.nonces }, challenge nonce nonce_ttl_secs)
  account_session_challenge _ nonce now r = (r, method_not_allowed)

  abbrev removed : Str → Relay → DeviceDir × Bool → Relay × Response
  removed dir r (d, done) = done_or (with_dir dir d r, done)

  abbrev delete_device : Removal → Option Str → Str → Relay → Relay × Response
  delete_device io none dir r = (r, refused id_required)
  delete_device io (some id) dir r =
      if is_empty id
      then (r, refused id_required)
      else removed dir r (remove_device_key io id (dir_at dir r))

  -- Listing and revoking: `id` is the parameter of the query, if there is one.
  unfoldable pub account_devices :
      Domains → Removal → Method → Option Str → Option Str → ℕ → Relay → Relay × Response
  unfolding authenticate_basic account_dir dir_at with_dir list_device_keys remove_device_key
  account_devices domains io method header id now r =
      elim (authenticate_basic c domains header now r) [
        | none ↦ (r, not_authorized)
        | some (domain, localpart) ↦
            let dir = account_dir domain localpart in
            elim method [
              | get ↦ (r, keys (list_device_keys (dir_at dir r)))
              | delete ↦ delete_device io id dir r
              | _ ↦ (r, method_not_allowed)
            ]
      ]
