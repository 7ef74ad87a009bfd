-- ===== src/Hooks.antt =====
-- crates/jmapsmtp/src/hooks.rs: the decisions on a draft and on a submission, with
-- `reply_only_exempt` of crates/jmapsmtp/src/config.rs and `known_correspondents` of
-- crates/jmapsmtp/src/handler.rs.
use jmapsmtp.Prelude.{
  ℕ, Bool, true, false, Option, none, some, List, [], ◌∷◌, ◌++◌, Str, codes, ◌==◌, not, ◌&&◌, ◌||◌,
  if◌then◌else◌, is_empty, any, leb, map, join, rsplit_once, text_eq, trim_by,
}
use jmapsmtp.Result.{Result, ok, err}
use jmapsmtp.Decimal.{print}
use jmapsmtp.Map
use jmapsmtp.Map.{Map}
use jmapsmtp.Map.Set
use jmapsmtp.Map.Set.{Set}
use jmapsmtp.Keys.{text_ord}
use jmapsmtp.JmapTypes.{Email, Address, BodyPart, body_part, BodyValue, Value}
use jmapsmtp.Methods.Query.{contains}
use jmapsmtp.Smtp.{Unicode}
pub mod Sealing

-- crates/jmap-types/src/emailsubmission.rs.
pub record EnvelopeAddress : Type 0 where
  pub email : Str
  pub parameters : Option Value

pub record Envelope : Type 0 where
  pub mail_from : Option EnvelopeAddress
  pub rcpt_to : List EnvelopeAddress

-- The storage cap; `used` is the size of the directory in megabytes.
unfoldable pub within_storage_cap : ℕ → ℕ → Result Str Unit
unfolding print
within_storage_cap cap used =
    if cap == 0
    then ok tt
    else if leb cap used
    then err (codes "storage limit reached (" ++ print cap ++ codes "MB)")
    else ok tt

module _ (u : Unicode) where
  abbrev domain_of : Option (Str × Str) → Str
  domain_of none = []
  domain_of (some (_, d)) = d

  unfoldable pub reply_only_exempt : List Str → Str → Bool
  unfolding rsplit_once text_eq
  reply_only_exempt exempt raw_sender =
      let sender = u.to_lowercase raw_sender in
      let domain = domain_of (rsplit_once b'@' sender) in
      any
        (λ raw.
          let e = u.to_lowercase (u.trim raw) in
          text_eq e sender || not (is_empty domain) && text_eq e domain)
        exempt

  unfoldable pub insert_senders : List Address → Set Str → Set Str
  insert_senders [] known = known
  insert_senders (a ∷ from) known =
      insert_senders from
        (if is_empty a.email then known else Set.insert (u.to_lowercase a.email) known)

  unfoldable pub known_correspondents : List Email → Set Str → Set Str
  unfolding insert_senders
  known_correspondents [] known = known
  known_correspondents (m ∷ messages) known =
      known_correspondents messages (insert_senders m.from known)

  unfoldable pub all_known : List EnvelopeAddress → Set Str → Result Str Unit
  all_known [] known = ok tt
  all_known (rcpt ∷ rcpts) known =
      let rest = all_known rcpts known in
      if not (Set.contains (u.to_lowercase rcpt.email) known)
      then err (codes "reply_only_outbound: " ++ rcpt.email ++ codes " has not sent you a message")
      else rest

  unfoldable pub reply_only_allows : Bool → List Str → Str → Envelope → Set Str → Result Str Unit
  unfolding reply_only_exempt all_known
  reply_only_allows reply_only_outbound exempt sender envelope known =
      if not reply_only_outbound || reply_only_exempt exempt sender
      then ok tt
      else all_known envelope.rcpt_to known

pub data StoredBody : Type 0 where
  already_encrypted encrypt_to_account_key plaintext : StoredBody

unfoldable pub stored_body : Str → Bool → StoredBody
unfolding contains
stored_body body has_account_key =
    if contains (codes "-----BEGIN PGP MESSAGE-----") body
    then already_encrypted
    else if has_account_key
    then encrypt_to_account_key
    else plaintext

abbrev pub part_id : BodyPart → Str
part_id (body_part id _ _ _ _ _ _ _ _ _ _ _) = id

unfoldable pub drop_values : List BodyPart → Map Str BodyValue → Map Str BodyValue
drop_values [] values = values
drop_values (part ∷ parts) values = drop_values parts (Map.remove (part_id part) values)

abbrev pub sealed_value : Str → BodyValue
sealed_value ciphertext = record {
  value = ciphertext;
  is_encoding_problem = false;
  is_truncated = false;
}

unfoldable pub seal_values : Str → List BodyPart → Map Str BodyValue → Map Str BodyValue
seal_values ciphertext [] values = values
seal_values ciphertext (part ∷ parts) values =
    seal_values ciphertext parts (Map.insert (part_id part) (sealed_value ciphertext) values)

unfoldable pub seal_stored_body : Str → Email → Email
unfolding drop_values seal_values
seal_stored_body ciphertext msg = record msg {
  body_values = seal_values ciphertext msg.text_body (drop_values msg.html_body msg.body_values);
  html_body = [];
}

unfoldable pub resolve_envelope : (Email → Option Envelope) → Email → Envelope → Result Str Envelope
resolve_envelope build_envelope msg supplied = elim supplied.mail_from [
  | some _ ↦ ok supplied
  | none ↦ elim (build_envelope msg) [ some e ↦ ok e | none ↦ err (codes "no recipients") ]
]

abbrev emails : List EnvelopeAddress → List Str
emails [] = []
emails (a ∷ rest) = a.email ∷ emails rest

unfoldable pub activity_peer : Envelope → Str
unfolding join
activity_peer envelope = join (codes ",") (emails envelope.rcpt_to)

unfoldable pub sent_message_id : Str → Option Str
unfolding trim_by
sent_message_id reported =
    let trimmed = trim_by (λ c. c == b'<' || c == b'>') reported in
    if is_empty trimmed then none else some trimmed
