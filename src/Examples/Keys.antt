-- ===== src/Examples/Keys.antt =====
-- The device keys and sessions of an account.
use jmapsmtp.Prelude.{
  false, text_eq, Str, none, strip_prefix, split_once, ◌^◌, ◌+◌, true, some, [], ◌∷◌, codes, ◌≡◌,
  ◌↔◌, refl, arith, text_compare,
}
use jmapsmtp.Map
use jmapsmtp.Keys.{same}
use jmapsmtp.Devices.{
  Crypto, DeviceDir, has_device_key, verify_signature, list_device_keys, Removal, is_fresh,
  remove_device_key, check_session_token,
}
use jmapsmtp.Store.{written}
use jmapsmtp.Result.{ok, err}
use jmapsmtp.Words.{ltb_i64}
use jmapsmtp.Login.{
  Codec, Relay, SessionRequest, SessionResponse, authenticate, session_rejected, files_at,
  account_dir,
}
use jmapsmtp.Login.Handlers.{login, account_of, dir_at, account_devices, get, keys}
use jmapsmtp.Login.Handlers.Session.{IsEntitled, login-IsEntitled, authenticate-login, login-login}
use jmapsmtp.Devices.Freshness.{is_fresh_lem, IsClose}
use jmapsmtp.Devices.File.{device_file-ne-in_sessions}
use jmapsmtp.Devices.Revoking.{check_session_token-remove_device_key}

abbrev pub crypto : Crypto
crypto = record {
  encode_base64 = λ s. s;
  decode_base64 = λ s. some s;
  token_hash = λ s. s;
  decode_key = λ s. some s;
  verify_strict = λ key msg sig. true;
}

abbrev pub codec : Codec
codec = record {
  crypto = crypto;
  standard_no_pad = λ s. none;
  url_safe = λ s. none;
  url_safe_no_pad = λ s. none;
  sha256 = λ s. s;
  from_utf8 = λ s. some s;
  to_lowercase = λ s. s;
  trim = λ s. s;
}

abbrev request : SessionRequest
request = record {
  username = codes "a";
  domain = codes "x";
  did = codes "did";
  device_pub_key = codes "phone";
  nonce = codes "n";
  ts = 100;
  sig = codes "s";
}

abbrev pub dir : DeviceDir
dir = record {
  devices = (codes "phone", some (record { id = codes "phone"; label = []; created_at = 1 })) ∷ [];
  sessions =
      (codes "t", some (record { device_id = codes "phone"; expires_at = 9 }))
      ∷ (codes "u", some (record { device_id = codes "laptop"; expires_at = 9 }))
      ∷ [];
  others = [];
}

abbrev relay : Relay
relay = record {
  dirs = (codes "x/a", record { auth_token_hash = none; device_dir = dir }) ∷ [];
  nonces = (codes "n", 200) ∷ [];
  dynamic = [];
}

abbrev removal : Removal
removal = record { device = true; sessions_listed = true; session = λ hash. true }

check_session_token-remove_device_key_example :
    (has_device_key (codes "phone") (remove_device_key removal (codes "phone") dir).0 ≡ false)
    × (check_session_token crypto (codes "t") 5 (remove_device_key removal (codes "phone") dir).0
        ≡ none)
unfolding remove_device_key check_session_token Map.contains_key Map.lookup same text_compare
    text_eq ltb_i64
check_session_token-remove_device_key_example =
    check_session_token-remove_device_key crypto 5 removal (codes "phone") dir (λ hash. refl)
      (codes "t") (device_file-ne-in_sessions (codes "phone") refl) (refl, (refl, tt)) refl refl

-- An id that leads to the session of another device: the device is not known, and the session is gone.
session_of_other_removed :
    check_session_token crypto
      (codes "u")
      5
      (remove_device_key removal (codes "../sessions/u") dir).0
    ≡ none
unfolding remove_device_key check_session_token Map.contains_key Map.lookup same text_compare
    text_eq Map.remove
session_of_other_removed = refl

session_before_removal : check_session_token crypto (codes "t") 5 dir ≡ some (codes "phone")
unfolding check_session_token Map.lookup same text_compare
session_before_removal = refl

is_fresh_lem_example : (is_fresh 1000 1301 ≡ true) ↔ IsClose 1000 1301
is_fresh_lem_example = is_fresh_lem 1000 1301 (omega arith) (omega arith)

-- A time as far away as an `i64` allows is deemed fresh: the difference wraps and its absolute value
-- stays negative.
is_fresh_wraps : is_fresh (2 ^ 63 + 1000) 1000 ≡ true
unfolding is_fresh
is_fresh_wraps = refl

login-IsEntitled_example :
    ((s : SessionResponse) × ((login codec written (codes "t9") request (codes "h") 100 150 relay).1
        ≡ ok s))
    ↔ ((username : Str) × (domain : Str) × IsEntitled codec request
          (codes "h")
          100
          150
          relay
          username
          domain)
login-IsEntitled_example =
    login-IsEntitled codec written (codes "t9") request (codes "h") 100 150 relay refl

authenticate-login_example :
    (s : SessionResponse) × ((login codec written (codes "t9") request (codes "h") 100 150 relay).1
      ≡ ok s)
    × (authenticate codec [] s.email s.token 5000
          (login codec written (codes "t9") request (codes "h") 100 150 relay).0
        ≡ some (codes "a@x"))
unfolding account_of is_fresh has_device_key dir_at files_at account_dir verify_signature Map.lookup
    Map.contains_key same text_compare ltb_i64 split_once
authenticate-login_example =
    authenticate-login codec written (codes "t9") request (codes "h") 100 150 relay [] 5000
      (codes "a") (codes "x") (refl, refl, refl, refl, (codes "phone", refl, refl)) refl refl refl
      refl (omega arith) (omega arith)

login-login_example :
    (login codec written
      (codes "t8")
      request
      (codes "h")
      101
      151
      (login codec written (codes "t9") request (codes "h") 100 150 relay).0).1
    ≡ err session_rejected
login-login_example =
    login-login codec written written (codes "t9") (codes "t8") request request (codes "h")
      (codes "h") 100 101 150 151 relay refl

-- A session token opens the list of the devices.
token_lists_devices :
    (account_devices codec [] removal get (some (codes "Basic a@x:t")) none 5 relay).1
    ≡ keys (record { id = codes "phone"; label = []; created_at = 1 } ∷ [])
unfolding account_devices list_device_keys authenticate check_session_token Map.lookup same
    text_compare strip_prefix split_once Map.values
token_lists_devices = refl
