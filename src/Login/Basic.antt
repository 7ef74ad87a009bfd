-- ===== src/Login/Basic.antt =====
-- What credentials that are accepted say of the files of the account: `authenticate` of
-- crates/jmapsmtp/src/server.rs and of crates/jmapsmtp/src/auth_env.rs.
use jmapsmtp.Prelude.{
  ℕ, Option, none, some, [], Str, codes, ◌≡◌, ◌≢◌, refl, ◌∙◌, arith, split_once, strip_prefix,
  Option-cases, inl, inr,
}
use jmapsmtp.Map
use jmapsmtp.Keys.{text_ord}
use jmapsmtp.Devices.{check_session_token}
use jmapsmtp.Login.{
  ◌>>=◌, Codec, Relay, Domains, no_files, account_dir, files_at, read_auth_hash, check_password,
  authenticate, authenticate_basic,
}

>>=-some :
    {A B : Type 0} (o : Option A) (f : A → Option B) (b : B)
    → (o >>= f) ≡ some b
    → (a : A) × (o ≡ some a) × (f a ≡ some b)
>>=-some none f b h = cc
>>=-some (some a) f b h = (a, refl, h)

module _ (c : Codec) (domains : Domains) where
  -- Credentials that are accepted are a name and a password that are.
  pub authenticate_basic-some :
      (header : Option Str) (now : ℕ) (r : Relay) (domain localpart : Str)
      → authenticate_basic c domains header now r ≡ some (domain, localpart)
      → (name : Str) × (password : Str) × (id : Str) × (authenticate c domains name password now r
          ≡ some id)
        × (split_once b'@' id ≡ some (localpart, domain))
  unfolding authenticate_basic
  authenticate_basic-some header now r domain localpart h =
      let (value, _, h1) = >>=-some header _ _ h in
      let (encoded, _, h2) = >>=-some (strip_prefix (codes "Basic ") value) _ _ h1 in
      let (bytes, _, h3) = >>=-some (c.crypto.decode_base64 encoded) _ _ h2 in
      let (decoded, _, h4) = >>=-some (c.from_utf8 bytes) _ _ h3 in
      let ((name, password), _, h5) = >>=-some (split_once b':' decoded) _ _ h4 in
      let (id, accepted, h6) = >>=-some (authenticate c domains name password now r) _ _ h5 in
      let ((l, d), parts, h7) = >>=-some (split_once b'@' id) _ _ h6 in
      let same : some (l, d) ≡ some (localpart, domain) = ground arith in
      (name, password, id, accepted, parts ∙ same)

  no_session :
      (password : Str) (now : ℕ)
      → check_session_token c.crypto password now no_files.device_dir ≡ none
  unfolding check_session_token Map.lookup
  no_session password now = ground arith

  no_password :
      (username password domain localpart : Str) (r : Relay)
      → c.trim [] ≡ []
      → files_at (account_dir domain localpart) r.dirs ≡ no_files
      → check_password c domains username localpart domain password r ≡ none
  unfolding check_password read_auth_hash
  no_password username password domain localpart r t f =
      let unset : read_auth_hash c domain localpart r.dirs ≡ [] = rw (read_auth_hash, f) t in
      rw (check_password, unset) (ground arith)

  check_password-some :
      (username password domain localpart id : Str) (r : Relay)
      → check_password c domains username localpart domain password r ≡ some id
      → id ≡ username
  unfolding check_password
  check_password-some username password domain localpart id r h = ground arith

  -- Who is let in is who asked, in lower case.
  authenticate-some :
      (name password id : Str) (now : ℕ) (r : Relay)
      → authenticate c domains name password now r ≡ some id
      → id ≡ c.to_lowercase name
  unfolding authenticate
  authenticate-some name password id now r h =
      elim (Option-cases (split_once b'@' (c.to_lowercase name))) [
        | inl e ↦ let nobody : none ≡ some id = rw (authenticate, e) at h in cc
        | inr ((l, d), e) ↦
            let from_password = check_password-some (c.to_lowercase name) password d l id r in
            ground arith
      ]

  -- Without files there is no session and no password, whatever is configured.
  pub authenticate-no_files :
      (name password id domain localpart : Str) (now : ℕ) (r : Relay)
      → c.trim [] ≡ []
      → files_at (account_dir domain localpart) r.dirs ≡ no_files
      → authenticate c domains name password now r ≡ some id
      → split_once b'@' id ≢ some (localpart, domain)
  unfolding authenticate
  authenticate-no_files name password id domain localpart now r t f h = λ parts.
      let one = authenticate-some name password id now r h in
      let named : split_once b'@' (c.to_lowercase name) ≡ some (localpart, domain) =
        rw (← one) parts in
      let nobody : none ≡ some id =
        rw
          (
            authenticate,
            named,
            f,
            no_session password now,
            no_password (c.to_lowercase name) password domain localpart r t f,
          )
          at h in
      cc
