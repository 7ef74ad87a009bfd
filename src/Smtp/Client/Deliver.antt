-- ===== src/Smtp/Client/Deliver.antt =====
-- Which recipients a delivery reaches (crates/jmapsmtp/src/smtp_out.rs).
use jmapsmtp.Prelude.{
  Bool, false, Option, none, some, List, [], ◌∷◌, ◌++◌, Str, ◌≡◌, refl, arith, if◌then◌else◌,
  rsplit_once, first, text_eq, text_eq_iff, append_assoc, append-nil, Option-cases, inl, inr, ap,
}
use jmapsmtp.Result.{Result, ok, err}
use jmapsmtp.Map
use jmapsmtp.Map.{Map, lookup-insert}
use jmapsmtp.Keys.{text_ord, same_iff}
use jmapsmtp.Smtp.Errors.{SendError}
use jmapsmtp.Smtp.Client.{recipients_of, group, target_of}

abbrev domain_is : Str → Option (Str × Str) → Bool
domain_is d none = false
domain_is d (some (_, domain)) = text_eq domain d

-- The recipients of one domain.
unfoldable pub of_domain : Str → List Str → List Str
of_domain d [] = []
of_domain d (addr ∷ to) =
    let rest = of_domain d to in if domain_is d (rsplit_once b'@' addr) then addr ∷ rest else rest

or_else : {A : Type 0} → A → Result SendError A → A
or_else a (ok b) = b
or_else a (err e) = a

-- The group of each domain after the recipients.
lookup-group_from :
    (d : Str) (to : List Str) (m m' : Map Str (List Str))
    → group to m ≡ ok m'
    → recipients_of (Map.lookup d m') ≡ recipients_of (Map.lookup d m) ++ of_domain d to
unfolding group of_domain or_else
lookup-group_from d [] m m' e = let here : m ≡ m' = ap (or_else m) e in rw (← here, append-nil) refl
lookup-group_from d (addr ∷ to) m m' e = elim (Option-cases (rsplit_once b'@' addr)) [
  | inl bad ↦ absurd (ground (arith, rw (bad, group) at e))
  | inr ((local, domain), good) ↦
      let m1 = Map.insert domain (recipients_of (Map.lookup domain m) ++ addr ∷ []) m in
      let ih = lookup-group_from d to m1 m' (rw (good, group) at e) in
      ground (
        arith,
        ih,
        good,
        lookup-insert domain d (recipients_of (Map.lookup domain m) ++ addr ∷ []) m,
        same_iff d domain,
        text_eq_iff domain d,
        append_assoc (recipients_of (Map.lookup domain m)) (addr ∷ []) (of_domain d to),
      )
]

-- The recipients of a domain are sent together and in their order, whatever else is in the message;
-- a domain that no recipient has is not in the groups, or has an empty one.
pub lookup-group :
    (d : Str) (to : List Str) (groups : Map Str (List Str))
    → group to [] ≡ ok groups
    → recipients_of (Map.lookup d groups) ≡ of_domain d to
unfolding Map.lookup
lookup-group d to groups e = lookup-group_from d to [] groups e

module _ (lookup_mx : Str → List Str) (send_one : Str → List Str → Result SendError Unit) where
  -- A domain has an exchanger, and the first one took the message for the recipients.
  abbrev pub IsSent : Str × List Str → Type 0
  IsSent (domain, addrs) =
      (host : Str) × (first (lookup_mx domain) ≡ some host)
      × (send_one (target_of host) addrs ≡ ok tt)
