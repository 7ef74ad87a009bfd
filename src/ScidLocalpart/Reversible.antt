-- ===== src/ScidLocalpart/Reversible.antt =====
-- The local part of an identity stands for it alone (crates/jmapsmtp/src/did/scid_localpart.rs).
use jmapsmtp.Prelude.{
  none, some, Str, ◌≡◌, sym, ap, ◌∙◌, ◌==◌, ==_iff, length, Bool-cases, Option-cases, inl, inr,
}
use jmapsmtp.Base58
use jmapsmtp.Base58.Inverse.{encode-decode, decode-IsDigit}
use jmapsmtp.Zbase32
use jmapsmtp.Zbase32.RoundTrip.{decode-encode_bytes}
use jmapsmtp.ScidLocalpart.{scid_bytes, recoded, to_localpart, from_localpart}

-- The bytes behind a local part.
to_localpart-some :
    (scid localpart : Str)
    → to_localpart scid ≡ some localpart
    → (bytes : Str) × (Base58.decode scid ≡ some bytes)
      × (length bytes ≡ scid_bytes)
      × (Zbase32.encode bytes ≡ localpart)
unfolding to_localpart
to_localpart-some scid localpart h = elim (Option-cases (Base58.decode scid)) [
  | inl e ↦ let nothing : none ≡ some localpart = rw (to_localpart, e) at h in cc
  | inr (bytes, e) ↦ elim (Bool-cases (length bytes == scid_bytes)) [
    | inr n ↦ let nothing : none ≡ some localpart = rw (to_localpart, e, n) at h in cc
    | inl n ↦
        let given : some (Zbase32.encode bytes) ≡ some localpart = rw (to_localpart, e, n) at h in
        (bytes, e, (==_iff (length bytes) scid_bytes).0 n, cc)
  ]
]

-- The identifier of an identity is read back from the local part that it has.
pub from_localpart-to_localpart :
    (scid localpart : Str)
    → to_localpart scid ≡ some localpart
    → from_localpart localpart ≡ some scid
unfolding from_localpart
from_localpart-to_localpart scid localpart h =
    let (bytes, e, n, written) = to_localpart-some scid localpart h in
    let read : Zbase32.decode localpart scid_bytes ≡ some bytes =
      ap (λ t. Zbase32.decode t scid_bytes) (sym written)
      ∙ ap (Zbase32.decode (Zbase32.encode bytes)) (sym n)
      ∙ decode-encode_bytes bytes (decode-IsDigit scid bytes e) in
    ap recoded read ∙ ap some (encode-decode scid bytes e)
