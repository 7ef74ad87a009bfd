-- ===== src/Login/Handlers/Session.antt =====
-- What a login asks for and what its token is good for (crates/jmapsmtp/src/did/devices.rs).
use jmapsmtp.Prelude.{
  ℕ, ◌+◌, ◌^◌, ◌<◌, ◌≤◌, ◌%◌, true, Option, none, some, [], ◌∷◌, ◌++◌, Str, ◌≡◌, ◌↔◌, refl, arith,
  ◌∙◌, ap, Option-cases, Bool-cases, inl, inr, split_once, is_some,
}
use jmapsmtp.Result.{Result-cases, ok, err}
use jmapsmtp.Map
use jmapsmtp.Map.{Map, lookup-insert, lookup-remove, lookup-insert_self, lookup-remove_self}
use jmapsmtp.Keys.{text_ord}
use jmapsmtp.Words.{ltb_i64}
use jmapsmtp.Store.{Write, written, refused, damaged, succeeded}
use jmapsmtp.SessionNonce.{consume, is_live}
use jmapsmtp.Devices.{
  write_file, DeviceDir, verify_device_session, issue_session_token, check_session_token, is_fresh,
  has_device_key, session_login_statement, verify_signature,
}
use jmapsmtp.Login.{
  or_no_files, Codec, Relay, Domains, SessionRequest, SessionResponse, account_dir, files_at,
  authenticate, session_token_ttl_secs, session_rejected,
}
use jmapsmtp.Login.Handlers.{login, account_of, dir_at, with_dir, granted}

split_once-append :
    (sep : ℕ) (a b : Str) → split_once sep a ≡ none → split_once sep (a ++ sep ∷ b) ≡ some (a, b)
unfolding split_once
split_once-append sep [] b h = ground arith
split_once-append sep (x ∷ a) b h = elim (Option-cases (split_once sep a)) [
  | inl e ↦ ground (arith, split_once-append sep a b)
  | inr (p, e) ↦ ground arith
]

pub dir_at-with_dir : (dir : Str) (d : DeviceDir) (r : Relay) → dir_at dir (with_dir dir d r) ≡ d
unfolding dir_at with_dir files_at
dir_at-with_dir dir d r = ap (λ o. (or_no_files o).device_dir) (lookup-insert_self dir _ r.dirs)

pub write_file-succeeded :
    {A : Type 0} (outcome : Write) (name : Str) (a : A) (files : Map Str (Option A))
    → succeeded outcome ≡ true
    → write_file outcome name a files ≡ Map.insert name (some a) files
write_file-succeeded written name a files h = refl
write_file-succeeded refused name a files h = cc
write_file-succeeded damaged name a files h = cc

-- What a login asks for: a nonce that is live, the fields of the request, a time that is fresh, a device
-- that the account has, and its signature over the statement with this host and this nonce.
abbrev pub IsEntitled : Codec → SessionRequest → Str → ℕ → ℕ → Relay → Str → Str → Type 0
IsEntitled c req host clock now r username domain =
    (is_live clock (Map.lookup req.nonce r.nonces) ≡ true)
    × (account_of c req.username req.domain req.did req.device_pub_key req.sig
        ≡ ok (username, domain))
    × (is_fresh req.ts now ≡ true)
    × (has_device_key req.device_pub_key (dir_at (account_dir domain username) r) ≡ true)
    × ((key : Str) × (c.crypto.decode_key req.device_pub_key ≡ some key)
        × (verify_signature c.crypto key
              (session_login_statement req.did req.device_pub_key host req.nonce req.ts) req.sig
            ≡ true))

module _ (c : Codec) (outcome : Write) (raw : Str) (req : SessionRequest) (host : Str)
    (clock now : ℕ) (r : Relay) where
  verify_device_session-true :
      (d : DeviceDir)
      → verify_device_session c.crypto d req.did req.device_pub_key host req.nonce req.ts req.sig
          now
        ≡ true
      → (is_fresh req.ts now ≡ true)
        × (has_device_key req.device_pub_key d ≡ true)
        × ((key : Str) × (c.crypto.decode_key req.device_pub_key ≡ some key)
            × (verify_signature c.crypto key
                  (session_login_statement req.did req.device_pub_key host req.nonce req.ts)
                  req.sig
                ≡ true))
  unfolding verify_device_session
  verify_device_session-true d h = elim (Option-cases (c.crypto.decode_key req.device_pub_key)) [
    | inl e ↦ ground arith
    | inr (key, e) ↦ (ground arith, ground arith, (key, e, ground arith))
  ]

  login-ok :
      (s : SessionResponse)
      → (login c outcome raw req host clock now r).1 ≡ ok s
      → (username : Str) × (domain : Str) × IsEntitled c req host clock now r username domain
  unfolding login consume
  login-ok s h = elim (Bool-cases (is_live clock (Map.lookup req.nonce r.nonces))) [
    | inr live ↦ ground (arith)
    | inl live ↦
        elim (Result-cases
          (account_of c req.username req.domain req.did req.device_pub_key req.sig)) [
            | inr (e, a) ↦ let stopped : err e ≡ ok s = rw (login, live, a) at h in cc
            | inl ((username, domain), a) ↦
                elim (Bool-cases (
                  verify_device_session c.crypto (dir_at (account_dir domain username) r) req.did
                    req.device_pub_key host req.nonce req.ts req.sig now)) [
                      | inl v ↦
                          let (fresh, has, signed) =
                            verify_device_session-true (dir_at (account_dir domain username) r) v in
                          (username, domain, (live, a, fresh, has, signed))
                      | inr v ↦
                          let stopped : err session_rejected ≡ ok s = rw (login, live, a, v) at h in
                          cc
                    ]
          ]
  ]

  granted-written :
      (username domain : Str)
      → IsEntitled c req host clock now r username domain
      → succeeded outcome ≡ true
      → (login c outcome raw req host clock now r).1
        ≡ ok (record {
          email = username ++ b'@' ∷ domain;
          token = c.crypto.encode_base64 raw;
          expires_in = session_token_ttl_secs;
        })
  unfolding login consume verify_device_session issue_session_token
  granted-written username domain (live, a, fresh, has, (key, k, sig)) done =
      rw (login, live, a, verify_device_session, fresh, has, k, sig, done) refl

  -- A login whose session is written is granted exactly if it has a live nonce, all fields, a fresh time,
  -- a device that the account knows and the signature of the device over this host and this nonce.
  pub login-IsEntitled :
      succeeded outcome ≡ true
      → ((s : SessionResponse) × ((login c outcome raw req host clock now r).1 ≡ ok s))
        ↔ ((username : Str) × (domain : Str) × IsEntitled c req host clock now r username domain)
  login-IsEntitled done =
      (λ (s, h). login-ok s h, λ (username, domain, e). (_, granted-written username domain e done))

  dirs-login :
      (username domain : Str)
      → IsEntitled c req host clock now r username domain
      → succeeded outcome ≡ true
      → (dir_at (account_dir domain username) (login c outcome raw req host clock now r).0).sessions
        ≡ Map.insert
            (c.crypto.token_hash raw)
            (some (record {
              device_id = req.device_pub_key;
              expires_at = (now + session_token_ttl_secs) % 2 ^ 64;
            }))
            (dir_at (account_dir domain username) r).sessions
  unfolding login consume verify_device_session issue_session_token
  dirs-login username domain (live, a, fresh, has, (key, k, sig)) done =
      rw (login, live, a, verify_device_session, fresh, has, k, sig, done)
        (ap (λ o. (or_no_files o).device_dir.sessions) (lookup-insert_self _ _ r.dirs)
          ∙ write_file-succeeded outcome (c.crypto.token_hash raw) _ _ done)

  token-speaks :
      (t : ℕ) (username domain : Str)
      → IsEntitled c req host clock now r username domain
      → succeeded outcome ≡ true
      → c.crypto.decode_base64 (c.crypto.encode_base64 raw) ≡ some raw
      → now + session_token_ttl_secs < 2 ^ 63
      → t ≤ now + session_token_ttl_secs
      → is_some (
          check_session_token c.crypto
            (c.crypto.encode_base64 raw)
            t
            (dir_at (account_dir domain username) (login c outcome raw req host clock now r).0))
        ≡ true
  unfolding check_session_token ltb_i64
  token-speaks t username domain e done b far soon =
      rw (check_session_token, b, dirs-login username domain e done, lookup-insert_self)
        (ground arith)

  -- The token of a login whose session is written opens the account, at any time up to thirty days after
  -- the login, if base64 is read back as it was written, the local part has no `@`, the address stays as
  -- it is in lower case, and the clock is far from the end of its range.
  pub authenticate-login :
      (domains : Domains) (t : ℕ) (username domain : Str)
      → IsEntitled c req host clock now r username domain
      → succeeded outcome ≡ true
      → c.crypto.decode_base64 (c.crypto.encode_base64 raw) ≡ some raw
      → split_once b'@' username ≡ none
      → c.to_lowercase (username ++ b'@' ∷ domain) ≡ username ++ b'@' ∷ domain
      → now + session_token_ttl_secs < 2 ^ 63
      → t ≤ now + session_token_ttl_secs
      → ((s : SessionResponse) × ((login c outcome raw req host clock now r).1 ≡ ok s)
          × (authenticate c domains s.email s.token t (login c outcome raw req host clock now r).0
              ≡ some (username ++ b'@' ∷ domain)))
  unfolding authenticate dir_at
  authenticate-login domains t username domain e done b plain lower far soon = (
    _,
    granted-written username domain e done,
    rw
        (
          authenticate,
          lower,
          split_once-append b'@' username domain plain,
          token-speaks t username domain e done b far soon,
        )
        (ap some lower),
  )

nonces-granted :
    (c : Codec) (dir username domain : Str) (r : Relay) (p : DeviceDir × Option Str)
    → (granted c dir username domain r p).0.nonces ≡ r.nonces
unfolding with_dir
nonces-granted c dir username domain r (d, none) = refl
nonces-granted c dir username domain r (d, some token) = refl

nonces-login :
    (c : Codec) (o : Write) (raw : Str) (req : SessionRequest) (host : Str) (clock now : ℕ)
    (r : Relay)
    → (login c o raw req host clock now r).0.nonces ≡ Map.remove req.nonce r.nonces
unfolding login consume
nonces-login c o raw req host clock now r =
    elim (Bool-cases (is_live clock (Map.lookup req.nonce r.nonces))) [
      | inr dead ↦ rw (login, dead) refl
      | inl live ↦
          elim (Result-cases
            (account_of c req.username req.domain req.did req.device_pub_key req.sig)) [
              | inr (e, a) ↦ rw (login, live, a) refl
              | inl ((username, domain), a) ↦
                  elim (Bool-cases (
                    verify_device_session c.crypto (dir_at (account_dir domain username) r) req.did
                      req.device_pub_key host req.nonce req.ts req.sig now)) [
                        | inr v ↦ rw (login, live, a, v) refl
                        | inl v ↦ rw (login, live, a, v) (nonces-granted c _ username domain _ _)
                      ]
            ]
    ]

-- The nonce of a login is spent, whatever the login comes to: a second login with it is rejected, at any
-- time and with any other fields.
pub login-login :
    (c : Codec) (o o' : Write) (raw raw' : Str) (req req' : SessionRequest) (host host' : Str)
    (clock clock' now now' : ℕ) (r : Relay)
    → req'.nonce ≡ req.nonce
    → (login c o' raw' req' host' clock' now' (login c o raw req host clock now r).0).1
      ≡ err session_rejected
unfolding login consume
login-login c o o' raw raw' req req' host host' clock clock' now now' r same_nonce =
    let spent = nonces-login c o raw req host clock now r in
    rw (login, same_nonce, spent, lookup-remove_self) refl
