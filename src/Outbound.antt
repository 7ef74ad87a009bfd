-- ===== src/Outbound.antt =====
-- crates/jmapsmtp/src/outbound.rs: a message as the bytes that are sent, and what becomes of them. The
-- OpenPGP keys, DKIM, base64 and the outcome of `Sender::deliver` are given. The dump for debugging is left
-- out.
use jmapsmtp.Prelude.{
  ℕ, Bool, true, false, Option, none, some, List, [], ◌∷◌, Str, codes, if◌then◌else◌, is_empty,
  is_some, rsplit_once,
}
use jmapsmtp.Result.{Result, ok, err}
use jmapsmtp.Map
use jmapsmtp.Map.{Map}
use jmapsmtp.Keys.{text_ord}
use jmapsmtp.JmapTypes.{Email}
use jmapsmtp.Config.{DomainConfig, selector}
use jmapsmtp.Hooks.{Envelope, EnvelopeAddress}
use jmapsmtp.Mime.{Platform, find}
use jmapsmtp.Mime.Build.{DateTime, build_rfc5322}
use jmapsmtp.Autocrypt.{inject_autocrypt, inject_chat_version, pgp_mime_wrap_inline}
use jmapsmtp.Smtp.Errors.{SendError, to_string}
use jmapsmtp.Queue.{Entry, Queue, Disk, enqueue}
use jmapsmtp.Queue.Policy.{Temporality, temporary, permanent, classify}
pub mod Held

pub data SendOutcome : Type 0 where
  sent : Option Str → SendOutcome
  queued : SendOutcome

unfoldable pub activity_result : SendOutcome → Str
activity_result (sent id) = codes "ok"
activity_result queued = codes "queued"

pub record Wire : Type 0 where
  pub platform : Platform
  pub to_datetime : Str → Option DateTime
  pub from_utf8 : Str → Option Str
  pub sha1 : Str → Str
  pub encode_base64 : Str → Str
  pub hostname : Str
  pub now : DateTime
  pub random_hex : Str
  pub account_key : Str → Option Str
  pub serialize_public_key : Str → Option Str
  pub domain_key : Str → Option Str
  pub sign : Str → Str → Str → Str → Str
  pub domains : Map Str DomainConfig
  pub deliver : Str → List Str → Str → Result SendError Unit
  pub disk : Disk
  pub queue_id : Str
  pub scheduled : ℕ
  pub queued_at : ℕ

abbrev pub sender_of : Option EnvelopeAddress → Str
sender_of none = []
sender_of (some a) = a.email

abbrev pub recipients : List EnvelopeAddress → List Str
recipients [] = []
recipients (a ∷ rest) = a.email ∷ recipients rest

module _ (w : Wire) where
  -- The serialised key of the account.
  abbrev key_of : Option Str → Option Str
  key_of none = none
  key_of (some key) = w.serialize_public_key key

  abbrev advertised : Str → Str → Option Str → Str
  advertised from raw none = raw
  advertised from raw (some serialized) = inject_autocrypt raw from (w.encode_base64 serialized)

  abbrev or_raw : Str → Option Str → Str
  or_raw raw none = raw
  or_raw raw (some wrapped) = wrapped

  abbrev wrapped_inline : Str → Str
  wrapped_inline raw =
      if is_some (find (codes "-----BEGIN PGP MESSAGE-----") raw)
      then or_raw raw (pgp_mime_wrap_inline w.from_utf8 w.sha1 raw)
      else raw

  abbrev selector_of : Option DomainConfig → Str
  selector_of none = codes "default"
  selector_of (some d) = selector d

  abbrev signed_by : Str → Str → Option Str → Str
  signed_by raw domain none = raw
  signed_by raw domain (some key) =
      w.sign raw key domain (selector_of (Map.lookup domain w.domains))

  abbrev signed : Str → Option (Str × Str) → Str
  signed raw none = raw
  signed raw (some (_, domain)) = signed_by raw domain (w.domain_key domain)

  -- The bytes that are sent, and the id that they have: built, advertised, marked, wrapped and, last of
  -- all, signed.
  unfoldable pub wire_message : Str → Str → Email → Str × Str
  unfolding build_rfc5322 inject_autocrypt inject_chat_version pgp_mime_wrap_inline find rsplit_once
      selector
  wire_message dir from msg =
      let (raw, generated_id) =
        build_rfc5322 w.platform w.to_datetime msg w.hostname w.now w.random_hex in
      let marked = inject_chat_version (advertised from raw (key_of (w.account_key dir))) in
      (signed (wrapped_inline marked) (rsplit_once b'@' from), generated_id)

  abbrev held : SendError → Queue × Option Entry → Queue × Result Str SendOutcome
  held e (q, some entry) = (q, ok queued)
  held e (q, none) = (q, err (to_string w.platform.unicode e))

  unfoldable pub after_failed_send :
      Str → List Str → Str → SendError → Temporality → Queue → Queue × Result Str SendOutcome
  unfolding enqueue to_string
  after_failed_send from to raw e permanent q = (q, err (to_string w.platform.unicode e))
  after_failed_send from to raw e temporary q = held e (
      enqueue w.disk w.queue_id w.scheduled w.queued_at from to raw (to_string w.platform.unicode e)
        q)

  abbrev after_delivery :
      Str → List Str → Str × Str → Result SendError Unit → Queue → Queue × Result Str SendOutcome
  after_delivery from to (raw, id) (ok u) q = (q, ok (sent (some id)))
  after_delivery from to (raw, id) (err e) q =
      after_failed_send from to raw e (classify w.platform.unicode e) q

  unfoldable pub send : Str → Email → Envelope → Queue → Queue × Result Str SendOutcome
  unfolding wire_message classify after_failed_send
  send dir msg envelope q =
      let from = sender_of envelope.mail_from in
      let to = recipients envelope.rcpt_to in
      let wire = wire_message dir from msg in
      if is_empty to
      then (q, err (codes "no recipients"))
      else after_delivery from to wire (w.deliver from to wire.0) q
