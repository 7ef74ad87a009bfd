-- ===== src/Hooks/Sealing.antt =====
-- What a stored copy keeps, and whom an account may write to (crates/jmapsmtp/src/hooks.rs).
use jmapsmtp.Prelude.{
  Bool, true, false, none, some, List, [], ◌∷◌, Str, not, ◌||◌, if◌then◌else◌, any, ◌≡◌, refl,
  arith,
}
use jmapsmtp.Result.{Result, ok, err}
use jmapsmtp.Map
use jmapsmtp.Map.{Map, lookup-insert, lookup-remove}
use jmapsmtp.Map.Set
use jmapsmtp.Map.Set.{Set}
use jmapsmtp.Keys.{text_ord, same}
use jmapsmtp.JmapTypes.{Email, BodyPart, BodyValue}
use jmapsmtp.Smtp.{Unicode}
use jmapsmtp.Hooks.{
  Envelope, EnvelopeAddress, part_id, drop_values, sealed_value, seal_values, seal_stored_body,
  reply_only_exempt, all_known, reply_only_allows,
}

-- The id is one of the parts.
abbrev pub is_part : Str → List BodyPart → Bool
is_part id parts = any (λ part. same id (part_id part)) parts

lookup-drop_values :
    (id : Str) (parts : List BodyPart) (values : Map Str BodyValue)
    → Map.lookup id (drop_values parts values)
      ≡ (if is_part id parts then none else Map.lookup id values)
unfolding drop_values
lookup-drop_values id [] values = refl
lookup-drop_values id (part ∷ parts) values = ground (
  arith,
  lookup-drop_values id parts (Map.remove (part_id part) values),
  lookup-remove (part_id part) id values,
)

lookup-seal_values :
    (ciphertext id : Str) (parts : List BodyPart) (values : Map Str BodyValue)
    → Map.lookup id (seal_values ciphertext parts values)
      ≡ (if is_part id parts then some (sealed_value ciphertext) else Map.lookup id values)
unfolding seal_values
lookup-seal_values ciphertext id [] values = refl
lookup-seal_values ciphertext id (part ∷ parts) values = ground (
  arith,
  lookup-seal_values ciphertext id parts
      (Map.insert (part_id part) (sealed_value ciphertext) values),
  lookup-insert (part_id part) id (sealed_value ciphertext) values,
)

-- In the sealed copy every text part holds the ciphertext, no HTML part that is no text part holds
-- anything, and every other value is as it was; no HTML part is listed.
pub lookup-seal_stored_body :
    (ciphertext id : Str) (msg : Email)
    → (Map.lookup id (seal_stored_body ciphertext msg).body_values ≡ (
        if is_part id msg.text_body
        then some (sealed_value ciphertext)
        else if is_part id msg.html_body
        then none
        else Map.lookup id msg.body_values))
      × ((seal_stored_body ciphertext msg).html_body ≡ [])
unfolding seal_stored_body
lookup-seal_stored_body ciphertext id msg = (
  ground (
    arith,
    lookup-seal_values ciphertext id msg.text_body (drop_values msg.html_body msg.body_values),
    lookup-drop_values id msg.html_body msg.body_values,
  ),
  refl,
)

abbrev pub is_ok : {E A : Type 0} → Result E A → Bool
is_ok (ok a) = true
is_ok (err e) = false

module _ (u : Unicode) where
  abbrev pub is_unknown : Set Str → EnvelopeAddress → Bool
  is_unknown known rcpt = not (Set.contains (u.to_lowercase rcpt.email) known)

  is_ok-all_known :
      (rcpts : List EnvelopeAddress) (known : Set Str)
      → is_ok (all_known u rcpts known) ≡ not (any (is_unknown known) rcpts)
  unfolding all_known
  is_ok-all_known [] known = refl
  is_ok-all_known (rcpt ∷ rcpts) known = ground (arith, is_ok-all_known rcpts known)

  -- A submission is allowed exactly if the rule is off, the sender is exempt, or every recipient has
  -- written to the account.
  pub is_ok-reply_only_allows :
      (on : Bool) (exempt : List Str) (sender : Str) (envelope : Envelope) (known : Set Str)
      → is_ok (reply_only_allows u on exempt sender envelope known) ≡ (
          not on
          || reply_only_exempt u exempt sender
          || not (any (is_unknown known) envelope.rcpt_to))
  unfolding reply_only_allows
  is_ok-reply_only_allows on exempt sender envelope known =
      ground (arith, is_ok-all_known envelope.rcpt_to known)
