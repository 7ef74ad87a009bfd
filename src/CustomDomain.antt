-- ===== src/CustomDomain.antt =====
-- crates/jmapsmtp/src/customdomain.rs: the decisions on a domain that a user brings. The HMAC of the
-- tokens is a parameter, and the configured accounts of a domain are the keys of a map.
use jmapsmtp.Prelude.{
  ℕ, Bool, true, false, Option, none, some, List, [], ◌∷◌, ◌++◌, Str, codes, ◌==◌, not, ◌&&◌, ◌||◌,
  if◌then◌else◌, is_empty, ltb, leb, length, is_lower, is_digit, rsplit_once, split, text_eq, any,
}
use jmapsmtp.Result.{Result, ok, err}
use jmapsmtp.Map
use jmapsmtp.Map.{Map}
use jmapsmtp.Keys.{text_ord}
use jmapsmtp.Smtp.Payload.{ends_with}

-- `Iterator::all`.
abbrev pub all {ℓ} : {A : Type ℓ} → (A → Bool) → List A → Bool
all p [] = true
all p (x ∷ xs) = p x && all p xs

abbrev pub is_label_byte : ℕ → Bool
is_label_byte c = is_lower c || is_digit c || c == b'-'

abbrev begins_with : ℕ → Str → Bool
begins_with b [] = false
begins_with b (c ∷ s) = c == b

unfoldable pub valid_label : Str → Bool
unfolding ends_with
valid_label label =
    not (is_empty label)
    && leb (length label) 63
    && all is_label_byte label
    && not (begins_with b'-' label)
    && not (ends_with b'-' label)

unfoldable pub valid_parts : Option (Str × Str) → Bool
unfolding valid_label
valid_parts none = false
valid_parts (some (labels, tld)) =
    not (ltb (length tld) 2)
    && all is_lower tld
    && not (is_empty labels)
    && all valid_label (split b'.' labels)

unfoldable pub valid_custom_domain : Str → Bool
unfolding valid_parts
valid_custom_domain domain =
    not (is_empty domain || ltb 253 (length domain)) && valid_parts (rsplit_once b'.' domain)

module _ (hmac_hex32 : Str → Str → Str) where
  unfoldable pub verify_token : Str → Str → Str
  verify_token secret domain = codes "biset-verify=" ++ hmac_hex32 secret domain

  unfoldable pub provision_secret_for : Str → Str → Str
  provision_secret_for secret domain = hmac_hex32 secret (codes "provision:" ++ domain)

unfoldable pub verify_txt_name : Str → Str
verify_txt_name domain = codes "_biset-verify." ++ domain

unfoldable pub txt_proves_ownership : List Str → Str → Bool
txt_proves_ownership records expected = any (λ r. text_eq r expected) records

pub data DomainError : Type 0 where
  invalid_domain not_verified unauthorized server_managed : DomainError

unfoldable pub status : DomainError → ℕ
status invalid_domain = 400
status unauthorized = 401
status server_managed = 403
status not_verified = 412

unfoldable pub may_self_delete : {A : Type 0} → Option (Map Str A) → Str → Result DomainError Unit
unfolding Map.contains_key
may_self_delete none localpart = ok tt
may_self_delete (some accounts) localpart =
    if Map.contains_key localpart accounts then err server_managed else ok tt
