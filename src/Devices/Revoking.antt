-- ===== src/Devices/Revoking.antt =====
-- The sessions that outlive a device (crates/jmapserver/src/did/devicekeys.rs).
use jmapsmtp.Prelude.{
  ℕ, Bool, true, false, Option, none, some, [], ◌∷◌, Str, ◌≡◌, ◌≢◌, refl, sym, arith, text_eq,
  Bool-cases, if◌then◌else◌, Option-cases, inl, inr,
}
use jmapsmtp.Map
use jmapsmtp.Map.{Map, contains_key-remove}
use jmapsmtp.Keys.{text_ord, same, same_refl, same_iff}
use jmapsmtp.Map.Set.{contains-remove}
use jmapsmtp.Devices.File.{DeviceFile, in_devices, in_sessions, outside, device_file}
use jmapsmtp.Devices.{
  DeviceDir, SessionRecord, Removal, Crypto, revoke_sessions, remove_device_key,
  check_session_token, has_device_key, is_of, unexpired, has_file, without_file,
}

-- Who a file of a session speaks for at a time.
abbrev speaker : Crypto → ℕ → Str → Map Str (Option SessionRecord) → Option Str
speaker c now hash sessions = unexpired c now (Map.lookup hash sessions)

-- The names of the files of a directory are distinct.
abbrev pub IsDistinct : Map Str (Option SessionRecord) → Type 0
IsDistinct [] = Unit
IsDistinct ((hash, file) ∷ sessions) = (Map.lookup hash sessions ≡ none) × IsDistinct sessions

-- Who a token speaks for, unless it is this device.
abbrev pub unless_of : Str → Option Str → Option Str
unless_of id none = none
unless_of id (some other) = if text_eq other id then none else some other

unless_of-revoked :
    (c : Crypto) (now : ℕ) (id : Str) (file : Option SessionRecord)
    → is_of id file ≡ true
    → unless_of id (unexpired c now (some file)) ≡ none
unless_of-revoked c now id none h = refl
unless_of-revoked c now id (some rec) h = ground arith

unless_of-kept :
    (c : Crypto) (now : ℕ) (id : Str) (file : Option SessionRecord)
    → is_of id file ≡ false
    → unless_of id (unexpired c now (some file)) ≡ unexpired c now (some file)
unless_of-kept c now id none h = refl
unless_of-kept c now id (some rec) h = ground arith

sessions-without_file :
    (file : DeviceFile) (d : DeviceDir)
    → ((hash : Str) → file ≢ in_sessions hash)
    → (without_file file d).sessions ≡ d.sessions
sessions-without_file (in_devices name) d apart = refl
sessions-without_file (in_sessions hash) d apart = absurd (apart hash refl)
sessions-without_file (outside path) d apart = refl

module _ (c : Crypto) (now : ℕ) (removes : Str → Bool) (id : Str)
    (working : (hash : Str) → removes hash ≡ true) where
  lookup-revoke_sessions :
      (hash : Str) (sessions : Map Str (Option SessionRecord))
      → Map.lookup hash sessions ≡ none
      → Map.lookup hash (revoke_sessions removes id sessions) ≡ none
  unfolding revoke_sessions Map.lookup
  lookup-revoke_sessions hash [] h = refl
  lookup-revoke_sessions hash ((key, file) ∷ sessions) h =
      ground (arith, lookup-revoke_sessions hash sessions, working key)

  speaker-revoke_sessions :
      (hash : Str) (sessions : Map Str (Option SessionRecord))
      → IsDistinct sessions
      → speaker c now hash (revoke_sessions removes id sessions)
        ≡ unless_of id (speaker c now hash sessions)
  unfolding revoke_sessions Map.lookup
  speaker-revoke_sessions hash [] h = refl
  speaker-revoke_sessions hash ((key, file) ∷ sessions) h = elim (Bool-cases (same hash key)) [
    | inl e ↦ elim (Bool-cases (is_of id file)) [
      | inl o ↦
          let key_is : hash ≡ key = ground (arith, same_iff hash key) in
          let gone : Map.lookup hash (revoke_sessions removes id sessions) ≡ none =
            rw (key_is) (lookup-revoke_sessions key sessions h.0) in
          rw (revoke_sessions, Map.lookup, o, working key, e, gone)
            (sym (unless_of-revoked c now id file o))
      | inr o ↦ rw (revoke_sessions, Map.lookup, o, e) (sym (unless_of-kept c now id file o))
    ]
    | inr e ↦
        let rest = speaker-revoke_sessions hash sessions h.1 in
        elim (Bool-cases (is_of id file)) [
          | inl o ↦ rw (revoke_sessions, Map.lookup, o, working key, e) rest
          | inr o ↦ rw (revoke_sessions, Map.lookup, o, e) rest
        ]
  ]

module _ (c : Crypto) (now : ℕ) (io : Removal) (id : Str) (d : DeviceDir)
    (working : (hash : Str) → io.session hash ≡ true) where
  -- A directory without a file and without the sessions of the device.
  abbrev revoked : DeviceFile → DeviceDir
  revoked file = record (without_file file d) {
    sessions = revoke_sessions io.session id (without_file file d).sessions;
  }

  has_file-revoked :
      (file : DeviceFile)
      → ((hash : Str) → file ≢ in_sessions hash)
      → has_file file (revoked file) ≡ false
  has_file-revoked (in_devices name) apart = simp (contains_key-remove, same_refl)
  has_file-revoked (in_sessions hash) apart = absurd (apart hash refl)
  has_file-revoked (outside path) apart = simp (contains-remove, same_refl)

  check_session_token-revoked :
      (file : DeviceFile) (token : Str)
      → ((hash : Str) → file ≢ in_sessions hash)
      → IsDistinct d.sessions
      → check_session_token c token now (revoked file)
        ≡ unless_of id (check_session_token c token now d)
  unfolding check_session_token
  check_session_token-revoked file token apart h = elim (Option-cases (c.decode_base64 token)) [
    | inl e ↦ rw (check_session_token, e) refl
    | inr (raw, e) ↦
        rw (check_session_token, e, sessions-without_file file d apart)
          (speaker-revoke_sessions c now io.session id working (c.token_hash raw) d.sessions h)
  ]

  -- Once a device is removed, with its sessions listed and their files removed, the device is gone, a
  -- token that spoke for it speaks for nobody, and every other token speaks for whom it did, if the names
  -- of the files of the sessions are distinct and the id does not lead to the file of a session.
  pub check_session_token-remove_device_key :
      (token : Str)
      → ((hash : Str) → device_file id ≢ in_sessions hash)
      → IsDistinct d.sessions
      → io.sessions_listed ≡ true
      → (remove_device_key io id d).1 ≡ true
      → (has_device_key id (remove_device_key io id d).0 ≡ false)
        × (check_session_token c token now (remove_device_key io id d).0
            ≡ unless_of id (check_session_token c token now d))
  unfolding remove_device_key has_device_key
  check_session_token-remove_device_key token apart h listed done =
      let same_dir : (remove_device_key io id d).0 ≡ revoked (device_file id) = ground arith in
      rw (same_dir) (
        has_file-revoked (device_file id) apart,
        check_session_token-revoked (device_file id) token apart h,
      )
