-- ===== src/Examples/Domain.antt =====
-- Domains that are accepted and refused.
use jmapsmtp.Prelude.{false, codes, ◌≡◌, refl, split, rsplit_once}
use jmapsmtp.Smtp.Payload.{ends_with}
use jmapsmtp.CustomDomain.{valid_custom_domain, valid_label}

valid_custom_domain-climbing : valid_custom_domain (codes "../x.jp") ≡ false
unfolding valid_custom_domain valid_label split rsplit_once ends_with
valid_custom_domain-climbing = refl
