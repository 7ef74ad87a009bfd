-- ===== src/Examples/Identifiers.antt =====
-- An identifier of did:webvh.
use jmapsmtp.Prelude.{some, none, [], ◌∷◌, Str, codes, ◌≡◌, refl, split, strip_prefix, text_eq}
use jmapsmtp.Result.{ok}
use jmapsmtp.WebvhId.{WebvhId, parse, bad_username}
use jmapsmtp.Result.{err}
use jmapsmtp.WebvhId.Names.{parse-IsReadFrom, IsReadFrom}

abbrev bob : WebvhId
bob = record { scid = codes "s"; domain = codes "h.x"; port = some 8443; username = codes "bob" }

parse-IsReadFrom_example :
    (rest : Str) × (strip_prefix (codes "did:webvh:") (codes "did:webvh:s:H.x%3A8443:b%6fb")
      ≡ some rest)
    × IsReadFrom (λ s. some s) (λ s. s) (split b':' rest) bob
unfolding parse text_eq
parse-IsReadFrom_example =
    parse-IsReadFrom (λ s. some s) (λ s. s) (codes "did:webvh:s:H.x%3A8443:b%6fb") bob refl

climbing_name : parse (λ s. some s) (λ s. s) (codes "did:webvh:s:h:%2e%2E") ≡ err bad_username
unfolding parse text_eq
climbing_name = refl

-- A sign stands for a digit of an escape.
signed_escape :
    parse (λ s. some s) (λ s. s) (codes "did:webvh:s:h:%+5")
    ≡ ok (record { scid = codes "s"; domain = codes "h"; port = none; username = 5 ∷ [] })
unfolding parse text_eq
signed_escape = refl
