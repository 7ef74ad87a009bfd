-- ===== src/WebvhId/Names.antt =====
-- The names that are read out of an identifier (crates/jmapsmtp/src/did/webvh_id.rs).
use jmapsmtp.Prelude.{
  ℕ, false, Option, some, List, [], ◌∷◌, Str, codes, ◌==◌, ==_iff, ◌≡◌, ◌≢◌, arith, ◌||◌, refl, All,
  any, is_empty, text_eq_iff, split, strip_prefix, Bool-cases, Option-cases, inl, inr,
}
use jmapsmtp.Result.{Result-cases, ok, err}
use jmapsmtp.WebvhId.{
  WebvhId, parse, parse_segments, percent_decode, bad_name, split_port, on_host, malformed_segments,
  bad_username, not_webvh,
}

-- A name of one entry of a directory.
abbrev pub IsEntry : Str → Type 0
IsEntry s =
    (s ≢ []) × (s ≢ codes ".") × (s ≢ codes "..") × All (λ b. (b ≢ b'/') × (b ≢ 92) × (b ≢ 0)) s

All-separators :
    (s : Str)
    → any (λ b. b == b'/' || b == 92 || b == 0) s ≡ false
    → All (λ b. (b ≢ b'/') × (b ≢ 92) × (b ≢ 0)) s
All-separators [] h = tt
All-separators (b ∷ s) h =
    (ground (arith, ==_iff b b'/', ==_iff b 92, ==_iff b 0), All-separators s (ground arith))

nonempty : (s : Str) → is_empty s ≡ false → s ≢ []
nonempty [] h = cc
nonempty (c ∷ s) h = λ e. cc

IsEntry-bad_name :
    (from_utf8 : Str → Option Str) (trim : Str → Str) (s : Str)
    → bad_name from_utf8 trim s ≡ false
    → IsEntry s
unfolding bad_name
IsEntry-bad_name from_utf8 trim s h = (
  λ e. ground (arith, rw (e) at h),
  λ e. ground (arith, text_eq_iff s (codes ".")),
  λ e. ground (arith, text_eq_iff s (codes "..")),
  All-separators s (ground arith),
)

module _ (from_utf8 : Str → Option Str) (trim : Str → Str) where
  -- What is read out of the segments of an identifier.
  abbrev pub IsReadFrom : List Str → WebvhId → Type 0
  IsReadFrom segments w =
      (host : Str) × (raw : Str) × (segments ≡ w.scid ∷ host ∷ raw ∷ [])
      × (split_port host ≡ ok (w.domain, w.port))
      × (percent_decode from_utf8 trim raw ≡ some w.username)
      × (w.scid ≢ [])
      × (w.domain ≢ [])
      × IsEntry w.username

  read_host :
      (scid host raw domain : Str) (port : Option ℕ) (w : WebvhId)
      → scid ≢ []
      → split_port host ≡ ok (domain, port)
      → on_host from_utf8 trim scid raw (domain, port) ≡ ok w
      → IsReadFrom (scid ∷ host ∷ raw ∷ []) w
  read_host scid host raw domain port w named_scid p h = elim (Bool-cases (is_empty domain)) [
    | inl e ↦ let stopped : err malformed_segments ≡ ok w = rw (e) at h in cc
    | inr e ↦ elim (Option-cases (percent_decode from_utf8 trim raw)) [
      | inl d ↦ let stopped : err bad_username ≡ ok w = rw (e, d) at h in cc
      | inr (username, d) ↦ elim (Bool-cases (bad_name from_utf8 trim username)) [
        | inl b ↦ let stopped : err bad_username ≡ ok w = rw (e, d, b) at h in cc
        | inr b ↦
            let read : WebvhId = record {
              scid = scid;
              domain = domain;
              port = port;
              username = username;
            } in
            let whole : ok read ≡ ok w = rw (e, d, b) at h in
            let made : read ≡ w = cc whole in
            rw (← made) (
              host,
              raw,
              refl,
              p,
              d,
              named_scid,
              nonempty domain e,
              IsEntry-bad_name from_utf8 trim username b,
            )
      ]
    ]
  ]

  IsReadFrom-parse_segments :
      (segments : List Str) (w : WebvhId)
      → parse_segments from_utf8 trim segments ≡ ok w
      → IsReadFrom segments w
  unfolding parse_segments
  IsReadFrom-parse_segments [] w h = cc
  IsReadFrom-parse_segments (scid ∷ []) w h = cc
  IsReadFrom-parse_segments (scid ∷ host ∷ []) w h = ground arith
  IsReadFrom-parse_segments (scid ∷ host ∷ raw ∷ (x ∷ more)) w h = ground arith
  IsReadFrom-parse_segments (scid ∷ host ∷ raw ∷ []) w h = elim (Bool-cases (is_empty scid)) [
    | inl e ↦ let stopped : err malformed_segments ≡ ok w = rw (parse_segments, e) at h in cc
    | inr e ↦ elim (Bool-cases (is_empty host)) [
      | inl e' ↦ let stopped : err malformed_segments ≡ ok w = rw (parse_segments, e, e') at h in cc
      | inr e' ↦ elim (Result-cases (split_port host)) [
        | inr (problem, p) ↦
            let stopped : err problem ≡ ok w = rw (parse_segments, e, e', p) at h in cc
        | inl ((domain, port), p) ↦
            read_host scid host raw domain port w (nonempty scid e) p
              (rw (parse_segments, e, e', p) at h)
      ]
    ]
  ]

  -- An identifier that is accepted starts with `did:webvh:` and has three segments behind it: a first
  -- that is not empty, a host, and a name, which once decoded is not empty, not a dot or two, and has no
  -- slash, backslash or zero byte.
  pub parse-IsReadFrom :
      (did : Str) (w : WebvhId)
      → parse from_utf8 trim did ≡ ok w
      → ((rest : Str) × (strip_prefix (codes "did:webvh:") did ≡ some rest)
          × IsReadFrom (split b':' rest) w)
  unfolding parse
  parse-IsReadFrom did w h = elim (Option-cases (strip_prefix (codes "did:webvh:") did)) [
    | inl e ↦ let stopped : err not_webvh ≡ ok w = rw (parse, e) at h in cc
    | inr (rest, e) ↦ (rest, e, IsReadFrom-parse_segments (split b':' rest) w (rw (parse, e) at h))
  ]
