-- ===== src/Mime/Address/Recipients.antt =====
-- The recipients of an envelope, against a description without the set of those seen
-- (crates/jmapserver/src/mime.rs).
use jmapsmtp.Prelude.{
  true, Option, none, List, [], ◌∷◌, ◌++◌, Str, ◌≡◌, refl, ap, arith, not, if◌then◌else◌, is_empty,
  keep_if, map,
}
use jmapsmtp.Map.Set
use jmapsmtp.Map.Set.{Set}
use jmapsmtp.Keys.{text_ord, same, same_iff}
use jmapsmtp.Hooks.{Envelope}
use jmapsmtp.JmapTypes.{Address, Email}
use jmapsmtp.Mime.Address.{add_recipients, build_envelope, envelope_address, envelope_to, sender_of}

-- Each text of a list at its first place only.
unfoldable pub distinct : List Str → List Str
distinct [] = []
distinct (x ∷ xs) = x ∷ keep_if (λ y. not (same y x)) (distinct xs)

abbrev addresses : List Address → List Str
addresses [] = []
addresses (a ∷ addrs) = a.email ∷ addresses addrs

-- The addresses of a message that are not empty.
abbrev named : List Address → List Str
named addrs = keep_if (λ x. not (is_empty x)) (addresses addrs)

abbrev unseen : Set Str → List Str → List Str
unseen seen = keep_if (λ x. not (Set.contains x seen))

abbrev without : Str → List Str → List Str
without x = keep_if (λ y. not (same y x))

-- A text that is marked as seen is the same as one that is left out.
unseen-insert :
    (x : Str) (seen : Set Str) (xs : List Str)
    → unseen (Set.insert x seen) xs ≡ unseen seen (without x xs)
unseen-insert x seen [] = refl
unseen-insert x seen (y ∷ xs) =
    ground (arith, Set.contains-insert x y seen, unseen-insert x seen xs)

unseen-without :
    (x : Str) (seen : Set Str) (xs : List Str)
    → Set.contains x seen ≡ true
    → unseen seen (without x xs) ≡ unseen seen xs
unseen-without x seen [] h = refl
unseen-without x seen (y ∷ xs) h = ground (arith, same_iff y x, unseen-without x seen xs h)

add_recipients-distinct :
    (seen : Set Str) (addrs : List Address)
    → add_recipients seen addrs ≡ map envelope_address (unseen seen (distinct (named addrs)))
unfolding add_recipients distinct
add_recipients-distinct seen [] = refl
add_recipients-distinct seen (a ∷ addrs) =
    let rest = distinct (named addrs) in
    ground (
      arith,
      add_recipients-distinct seen addrs,
      unseen-without a.email seen rest,
      add_recipients-distinct (Set.insert a.email seen) addrs,
      unseen-insert a.email seen rest,
    )

unseen-nil : (xs : List Str) → unseen [] xs ≡ xs
unfolding Set.contains
unseen-nil [] = refl
unseen-nil (x ∷ xs) = ap (λ t. x ∷ t) (unseen-nil xs)

-- The envelope by the list of addresses: the first sender, and each address of To, Cc and Bcc that
-- is not empty, at its first place; none if either is missing.
unfoldable pub envelope_of : Email → Option Envelope
unfolding distinct
envelope_of e =
    if is_empty (sender_of e.from)
    then none
    else envelope_to (sender_of e.from)
        (map envelope_address (distinct (named (e.to ++ e.cc ++ e.bcc))))

-- The envelope of a message has its first sender and, in the order of To, Cc and Bcc, each address
-- that is not empty once; there is no envelope if there is no sender or no such address.
pub build_envelope-envelope_of : (e : Email) → build_envelope e ≡ envelope_of e
unfolding build_envelope envelope_of
build_envelope-envelope_of e = rw (add_recipients-distinct [] (e.to ++ e.cc ++ e.bcc), unseen-nil)
