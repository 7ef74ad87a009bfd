-- ===== src/Examples/Digits.antt =====
-- Base58, z-base-32, and the local part of an identity.
use jmapsmtp.Prelude.{some, [], ◌∷◌, codes, ◌≡◌, refl, arith, Str}
use jmapsmtp.Base58.{encode, decode}
use jmapsmtp.Base58.RoundTrip.{decode-encode}
use jmapsmtp.Base58
use jmapsmtp.Zbase32
use jmapsmtp.ScidLocalpart.{to_localpart, from_localpart}
use jmapsmtp.ScidLocalpart.Reversible.{from_localpart-to_localpart}

decode-encode_example : decode (encode (0 ∷ 0 ∷ 7 ∷ 255 ∷ [])) ≡ some (0 ∷ 0 ∷ 7 ∷ 255 ∷ [])
decode-encode_example =
    decode-encode (0 ∷ 0 ∷ 7 ∷ 255 ∷ [])
      (omega arith, (omega arith, (omega arith, (omega arith, tt))))

hello : encode (codes "Hello World!") ≡ codes "2NEpo7TZRRrLZSi2U"
unfolding encode
hello = refl

abbrev scid : Str
scid = codes "1111111111111111111111111111111111"

abbrev localpart : Str
localpart = codes "yyyyyyyyyyyyyyyyyyyyyyyyyyyyyyyyyyyyyyyyyyyyyyyyyyyyyyy"

from_localpart-to_localpart_example : from_localpart localpart ≡ some scid
unfolding to_localpart Base58.repeat
from_localpart-to_localpart_example = from_localpart-to_localpart scid localpart refl

-- Two bytes are four characters, the last with four bits of padding.
padded : Zbase32.encode (255 ∷ 1 ∷ []) ≡ codes "9hyo"
unfolding Zbase32.encode
padded = refl
