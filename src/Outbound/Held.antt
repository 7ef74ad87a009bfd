-- ===== src/Outbound/Held.antt =====
-- A message that is sent is delivered, or held for a retry, or its failure is reported
-- (crates/jmapsmtp/src/outbound.rs).
use jmapsmtp.Prelude.{
  true, some, List, Str, ◌≡◌, ◌⊎◌, refl, ap, ◌∙◌, is_empty, inl, inr, Bool-cases,
}
use jmapsmtp.Result.{Result, Result-cases, ok, err}
use jmapsmtp.Map
use jmapsmtp.Map.{lookup-insert_self}
use jmapsmtp.Keys.{text_ord}
use jmapsmtp.JmapTypes.{Email}
use jmapsmtp.Hooks.{Envelope}
use jmapsmtp.Smtp.Errors.{SendError, to_string}
use jmapsmtp.Queue.{Entry, Slot, Queue, working, slot_of, write_meta, new_entry, enqueue, message}
use jmapsmtp.Queue.Policy.{Temporality, temporary, permanent, classify}
use jmapsmtp.Outbound.{
  SendOutcome, sent, queued, Wire, sender_of, recipients, wire_message, after_failed_send, send,
}

-- The failure is of this kind.
abbrev pub FailedAs : Wire → Temporality → Result SendError Unit → Type 0
FailedAs w t r = (e : SendError) × (r ≡ err e) × (classify w.platform.unicode e ≡ t)

-- The queue has the message, its sender and its recipients under the id.
abbrev pub Holds : Str → Str → List Str → Str → Queue → Type 0
Holds id from to raw q =
    (message id q ≡ some raw)
    × ((entry : Entry) × ((slot_of id q).meta ≡ some (some entry))
        × (entry.from ≡ from)
        × (entry.to ≡ to))

-- What became of the bytes `raw`: delivered, held, or not accepted for good.
abbrev pub IsAccounted :
    Wire → Str → List Str → Str → Queue → Queue × Result Str SendOutcome → Type 0
IsAccounted w from to raw q (q', ok (sent id)) = (w.deliver from to raw ≡ ok tt) × (q' ≡ q)
IsAccounted w from to raw q (q', ok queued) =
    FailedAs w temporary (w.deliver from to raw) × Holds w.queue_id from to raw q'
IsAccounted w from to raw q (q', err text) =
    (q' ≡ q) × ((is_empty to ≡ true) ⊎ FailedAs w permanent (w.deliver from to raw))

slot_of-insert : (id : Str) (s : Slot) (q : Queue) → slot_of id (Map.insert id s q) ≡ s
slot_of-insert id s q = rw (lookup-insert_self id s q) refl

module _ (w : Wire) where
  enqueue-Holds :
      (from : Str) (to : List Str) (raw error : Str) (q : Queue)
      → Holds w.queue_id from to raw
          (enqueue working w.queue_id w.scheduled w.queued_at from to raw error q).0
  unfolding enqueue write_meta new_entry message
  enqueue-Holds from to raw error q =
      let entry = new_entry w.queue_id from to error w.scheduled w.queued_at in
      let q' =
        Map.insert w.queue_id (record (slot_of w.queue_id q) { message_file = some raw }) q in
      let slot : Slot = record (slot_of w.queue_id q') { meta = some (some entry) } in
      let filed = slot_of-insert w.queue_id slot q' in
      (
        ap (λ s. s.message_file) filed ∙ ap (λ s. s.message_file) (slot_of-insert w.queue_id _ q),
        (entry, ap (λ s. s.meta) filed, refl, refl),
      )

  after_failed_send-IsAccounted :
      (from : Str) (to : List Str) (raw : Str) (e : SendError) (t : Temporality) (q : Queue)
      → w.disk ≡ working
      → w.deliver from to raw ≡ err e
      → classify w.platform.unicode e ≡ t
      → IsAccounted w from to raw q (after_failed_send w from to raw e t q)
  unfolding after_failed_send
  after_failed_send-IsAccounted from to raw e permanent q d r c = (refl, inr (e, r, c))
  after_failed_send-IsAccounted from to raw e temporary q d r c =
      rw (after_failed_send, d)
        ((e, r, c), enqueue-Holds from to raw (to_string w.platform.unicode e) q)

  -- A send with a queue that can be written ends in one of three ways: the message was delivered and the
  -- queue is as it was, it could not be delivered for the time being and the queue holds it for the same
  -- sender and recipients, or an error is reported, and then there was no recipient or the failure is
  -- for good.
  pub send-IsAccounted :
      (dir : Str) (msg : Email) (envelope : Envelope) (q : Queue)
      → w.disk ≡ working
      → IsAccounted w
          (sender_of envelope.mail_from)
          (recipients envelope.rcpt_to)
          (wire_message w dir (sender_of envelope.mail_from) msg).0
          q
          (send w dir msg envelope q)
  unfolding send
  send-IsAccounted dir msg envelope q d =
      let from = sender_of envelope.mail_from in
      let to = recipients envelope.rcpt_to in
      let raw = (wire_message w dir from msg).0 in
      elim (Bool-cases (is_empty to)) [
        | inl n ↦ rw (send, n) (refl, inl n)
        | inr n ↦ elim (Result-cases (w.deliver from to raw)) [
          | inl (u, r) ↦ rw (send, n, r) (r, refl)
          | inr (e, r) ↦
              rw (send, n, r)
                (after_failed_send-IsAccounted from to raw e (classify w.platform.unicode e) q d r
                  refl)
        ]
      ]
