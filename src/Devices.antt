-- ===== src/Devices.antt =====
-- crates/jmapserver/src/did/devicekeys.rs and devicebind.rs: the device keys of an account and the
-- sessions that they open. A directory is a map from file names to what the files parse to; a time is
-- the bit pattern of an `i64`, and arithmetic on it wraps.
use jmapsmtp.Prelude.{
  ℕ, ◌+◌, ◌-◌, ◌%◌, ◌^◌, ◌≤◌, ◌<◌, Bool, true, false, Option, none, some, List, [], ◌∷◌, ◌++◌, Str,
  codes, not, ◌&&◌, ◌||◌, leb, ltb, if◌then◌else◌, text_eq, text_compare,
}
use Prim.Native.Nat.{Ordering}
use jmapsmtp.Decimal.{print_i64}
use jmapsmtp.Words.{ltb_i64}
use jmapsmtp.Map
use jmapsmtp.Map.{Map}
use jmapsmtp.Map.Set
use jmapsmtp.Map.Set.{Set}
use jmapsmtp.Devices.File.{DeviceFile, in_devices, in_sessions, outside, device_file}
use jmapsmtp.Keys.{text_ord}
use jmapsmtp.Store.{Write, written, refused, damaged, succeeded}
pub mod File
pub mod Writing
pub mod Revoking
pub mod Freshness

pub record DeviceKey : Type 0 where
  pub id : Str
  pub label : Str
  pub created_at : ℕ

pub record SessionRecord : Type 0 where
  pub device_id : Str
  pub expires_at : ℕ

-- The files under devices/ and sessions/, `none` for one that does not parse, and the ids that lead to
-- a file elsewhere that is there. A path that leaves the directory of the account is not followed back
-- into it, and two spellings of one elsewhere are two.
pub record DeviceDir : Type 0 where
  pub devices : Map Str (Option DeviceKey)
  pub sessions : Map Str (Option SessionRecord)
  pub others : Set Str

abbrev pub write_file : {A : Type 0} → Write → Str → A → Map Str (Option A) → Map Str (Option A)
write_file written name a files = Map.insert name (some a) files
write_file refused name a files = files
write_file damaged name a files = Map.insert name none files

-- A file that does not parse as a session is left in place of one.
abbrev write_other : {A : Type 0} → Write → Str → Map Str (Option A) → Map Str (Option A)
write_other refused name files = files
write_other _ name files = Map.insert name none files

abbrev write_outside : Write → Str → Set Str → Set Str
write_outside refused path others = others
write_outside _ path others = Set.insert path others

abbrev pub written_to : Write → DeviceKey → DeviceFile → DeviceDir → DeviceDir
written_to outcome key (in_devices name) d = record d {
  devices = write_file outcome name key d.devices;
}
written_to outcome key (in_sessions hash) d = record d {
  sessions = write_other outcome hash d.sessions;
}
written_to outcome key (outside path) d = record d { others = write_outside outcome path d.others }

unfoldable pub write_device_key : Write → DeviceKey → DeviceDir → DeviceDir × Bool
unfolding device_file
write_device_key outcome key d = (written_to outcome key (device_file key.id) d, succeeded outcome)

-- `sort_by` of the ids: a key goes in front of the first with a greater id.
unfoldable pub insert_by_id : DeviceKey → List DeviceKey → List DeviceKey
insert_by_id key [] = key ∷ []
insert_by_id key (k ∷ ks) = elim (text_compare key.id k.id) [
  | Ordering.gt ↦ k ∷ insert_by_id key ks
  | _ ↦ key ∷ k ∷ ks
]

unfoldable pub sorted_keys : List (Option DeviceKey) → List DeviceKey
unfolding insert_by_id
sorted_keys [] = []
sorted_keys (none ∷ files) = sorted_keys files
sorted_keys (some key ∷ files) = insert_by_id key (sorted_keys files)

unfoldable pub list_device_keys : DeviceDir → List DeviceKey
unfolding sorted_keys
list_device_keys d = sorted_keys (Map.values d.devices)

abbrev pub has_file : DeviceFile → DeviceDir → Bool
has_file (in_devices name) d = Map.contains_key name d.devices
has_file (in_sessions hash) d = Map.contains_key hash d.sessions
has_file (outside path) d = Set.contains path d.others

unfoldable pub has_device_key : Str → DeviceDir → Bool
unfolding device_file
has_device_key id d = has_file (device_file id) d

-- How the files of a removal fare: the file of the device, the list of the sessions, and each session.
pub record Removal : Type 0 where
  pub device : Bool
  pub sessions_listed : Bool
  pub session : Str → Bool

abbrev is_of : Str → Option SessionRecord → Bool
is_of id none = false
is_of id (some rec) = text_eq rec.device_id id

unfoldable pub revoke_sessions :
    (Str → Bool) → Str → Map Str (Option SessionRecord) → Map Str (Option SessionRecord)
revoke_sessions removes id [] = []
revoke_sessions removes id ((hash, file) ∷ sessions) =
    let rest = revoke_sessions removes id sessions in
    if is_of id file && removes hash then rest else (hash, file) ∷ rest

abbrev pub without_file : DeviceFile → DeviceDir → DeviceDir
without_file (in_devices name) d = record d { devices = Map.remove name d.devices }
without_file (in_sessions hash) d = record d { sessions = Map.remove hash d.sessions }
without_file (outside path) d = record d { others = Set.remove path d.others }

-- A device that is not there is no error.
unfoldable pub remove_device_key : Removal → Str → DeviceDir → DeviceDir × Bool
unfolding device_file has_device_key revoke_sessions
remove_device_key io id d =
    let gone = without_file (device_file id) d in
    let revoked = record gone { sessions = revoke_sessions io.session id gone.sessions } in
    if has_device_key id d && not io.device
    then (d, false)
    else if io.sessions_listed
    then (revoked, true)
    else (gone, true)

abbrev pub freshness_window : ℕ
freshness_window = 300

-- `i64::abs`, which leaves the least number as it is.
unfoldable pub abs_i64 : ℕ → ℕ
abs_i64 n = if ltb n (2 ^ 63) then n else (2 ^ 64 - n) % 2 ^ 64

unfoldable pub is_fresh : ℕ → ℕ → Bool
unfolding abs_i64 ltb_i64
is_fresh ts now = not (ltb_i64 freshness_window (abs_i64 ((now + 2 ^ 64 - ts) % 2 ^ 64)))

unfoldable pub session_login_statement : Str → Str → Str → Str → ℕ → Str
unfolding print_i64
session_login_statement did key host nonce ts =
    codes "session:"
    ++ did
    ++ codes ":"
    ++ key
    ++ codes ":"
    ++ host
    ++ codes ":"
    ++ nonce
    ++ codes ":"
    ++ print_i64 ts

unfoldable pub vouch_statement : Str → Str → Str → ℕ → Str
unfolding print_i64
vouch_statement did key label ts =
    codes "devkey:" ++ did ++ codes ":" ++ key ++ codes ":" ++ label ++ codes ":" ++ print_i64 ts

-- What the crates supply: base64, the hash of a token as the name of its file, the decoding of a key,
-- and the strict verification of a signature under a key.
pub record Crypto : Type 0 where
  pub encode_base64 : Str → Str
  pub decode_base64 : Str → Option Str
  pub token_hash : Str → Str
  pub decode_key : Str → Option Str
  pub verify_strict : Str → Str → Str → Bool

module _ (c : Crypto) where
  unfoldable pub verify_signature : Str → Str → Str → Bool
  verify_signature key msg sig_b64 = elim (c.decode_base64 sig_b64) [
    | none ↦ false
    | some sig ↦ c.verify_strict key msg sig
  ]

  unfoldable pub verify_device_session : DeviceDir → Str → Str → Str → Str → ℕ → Str → ℕ → Bool
  unfolding is_fresh has_device_key session_login_statement verify_signature
  verify_device_session d did device_key relay_host nonce ts sig_b64 now =
      if not (is_fresh ts now)
      then false
      else if not (has_device_key device_key d)
      then false
      else elim (c.decode_key device_key) [
        | none ↦ false
        | some key ↦
            verify_signature key (session_login_statement did device_key relay_host nonce ts)
              sig_b64
      ]

  -- `raw` is what the random source gives.
  unfoldable pub issue_session_token :
      Write → Str → Str → ℕ → ℕ → DeviceDir → DeviceDir × Option Str
  issue_session_token outcome raw device_id ttl now d =
      let rec : SessionRecord = record {
        device_id = device_id;
        expires_at = (now + ttl) % 2 ^ 64;
      } in
      let d' = record d { sessions = write_file outcome (c.token_hash raw) rec d.sessions } in
      if succeeded outcome then (d', some (c.encode_base64 raw)) else (d', none)

  abbrev pub unexpired : ℕ → Option (Option SessionRecord) → Option Str
  unexpired now none = none
  unexpired now (some none) = none
  unexpired now (some (some rec)) =
      if not (ltb_i64 rec.expires_at now) then some rec.device_id else none

  unfoldable pub check_session_token : Str → ℕ → DeviceDir → Option Str
  unfolding ltb_i64
  check_session_token token now d = elim (c.decode_base64 token) [
    | none ↦ none
    | some raw ↦ unexpired now (Map.lookup (c.token_hash raw) d.sessions)
  ]
