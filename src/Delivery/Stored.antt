-- ===== src/Delivery/Stored.antt =====
-- What a message is stored as: the seal of `store_message` and `seal_inbound`
-- (crates/jmapsmtp/src/delivery.rs).
use jmapsmtp.Prelude.{
  ℕ, true, Option, none, some, [], ◌∷◌, Str, codes, ◌||◌, ◌≡◌, refl, Bool-cases, Option-cases, inl,
  inr, is_empty, if◌then◌else◌,
}
use jmapsmtp.Map
use jmapsmtp.Keys.{text_ord}
use jmapsmtp.JmapTypes.{Email}
use jmapsmtp.Accounts.{AccountStore}
use jmapsmtp.Store.{Store}
use jmapsmtp.Store.Threads.{resolve_thread_id}
use jmapsmtp.Store.Messages.{with_thread}
use jmapsmtp.Store.Mailboxes.{mailboxes}
use jmapsmtp.Hooks.{seal_stored_body, sealed_value}
use jmapsmtp.Hooks.Sealing.{is_part, lookup-seal_stored_body}
use jmapsmtp.Mime.Build.{message_body}
use jmapsmtp.Mime.Text.{extract_attachments}
use jmapsmtp.Methods.Query.{contains}
use jmapsmtp.Delivery.{
  World, make_message_id, inbox_of, first_of, build_encrypted_multipart, sealed, seal_inbound,
  filed,
}

-- The head of a message, its parts and its attachments are those of another.
abbrev pub KeepsHead : Email → Email → Type 0
KeepsHead m s =
    (s.headers ≡ m.headers)
    × (s.subject ≡ m.subject)
    × (s.from ≡ m.from)
    × (s.sender ≡ m.sender)
    × (s.to ≡ m.to)
    × (s.cc ≡ m.cc)
    × (s.bcc ≡ m.bcc)
    × (s.reply_to ≡ m.reply_to)
    × (s.message_id ≡ m.message_id)
    × (s.in_reply_to ≡ m.in_reply_to)
    × (s.references ≡ m.references)
    × (s.sent_at ≡ m.sent_at)
    × (s.text_body ≡ m.text_body)
    × (s.attachments ≡ m.attachments)

-- The text of a message is that of another, or the ciphertext: in every text part, with no HTML part.
abbrev pub HasText : Option Str → Email → Email → Type 0
HasText none m s = (s.body_values ≡ m.body_values) × (s.html_body ≡ m.html_body)
HasText (some text) m s =
    ((id : Str)
      → Map.lookup id s.body_values ≡ (
          if is_part id m.text_body
          then some (sealed_value text)
          else if is_part id m.html_body
          then none
          else Map.lookup id m.body_values))
    × (s.html_body ≡ [])

module _ (w : World) where
  -- What is encrypted: the text, with the attachments of the message as it came, if it has any.
  abbrev pub plaintext_of : Str → Email → Str
  plaintext_of raw m =
      let attachments = extract_attachments w.platform raw in
      if is_empty attachments
      then message_body m
      else build_encrypted_multipart w (message_body m) attachments

  abbrev encrypted_to : Str → Option Str → Option Str
  encrypted_to plaintext none = none
  encrypted_to plaintext (some key) = elim (w.encrypt_inline key plaintext) [
    | none ↦ none
    | some ciphertext ↦ some (w.platform.from_utf8_lossy ciphertext)
  ]

  -- The ciphertext that an account stores a message under: `none` if it has no text, is encrypted
  -- already, the account has no key, or the encryption fails.
  abbrev pub ciphertext_of : Str → Str → Email → Option Str
  ciphertext_of dir raw m =
      if is_empty (message_body m)
        || contains (codes "-----BEGIN PGP MESSAGE-----") (message_body m)
      then none
      else encrypted_to (plaintext_of raw m) (w.account_key dir)

  -- The place of a message: its id, its mailboxes and its time.
  abbrev IsAt : Email → Email → Type 0
  IsAt m s = (s.id ≡ m.id) × (s.mailbox_ids ≡ m.mailbox_ids) × (s.received_at ≡ m.received_at)

  -- A message that differs from another in the text, the keywords and the thread at most.
  abbrev pub IsStored : Option Str → Email → Email → Type 0
  IsStored text m s = KeepsHead m s × HasText text m s

  IsStored-refl : (m : Email) → IsStored none m m × IsAt m m
  IsStored-refl m = (
    (
      (refl, refl, refl, refl, refl, refl, refl, refl, refl, refl, refl, refl, refl, refl),
      (refl, refl),
    ),
    (refl, refl, refl),
  )

  seal_stored_body-IsStored :
      (text : Str) (m : Email)
      → IsStored (some text) m (seal_stored_body text m) × IsAt m (seal_stored_body text m)
  unfolding seal_stored_body
  seal_stored_body-IsStored text m = (
    (
      (IsStored-refl m).0.0,
      (λ id. (lookup-seal_stored_body text id m).0, (lookup-seal_stored_body text [] m).1),
    ),
    (refl, refl, refl),
  )

  sealed-IsStored :
      (plaintext : Str) (key : Option Str) (m : Email)
      → IsStored (encrypted_to plaintext key) m (sealed w plaintext key m)
        × IsAt m (sealed w plaintext key m)
  sealed-IsStored plaintext none m = IsStored-refl m
  sealed-IsStored plaintext (some key) m = elim (Option-cases (w.encrypt_inline key plaintext)) [
    | inl e ↦ rw (sealed, encrypted_to, e) (IsStored-refl m)
    | inr (c, e) ↦
        rw (sealed, encrypted_to, e) (seal_stored_body-IsStored (w.platform.from_utf8_lossy c) m)
  ]

  seal_inbound-IsStored :
      (dir raw : Str) (m : Email)
      → IsStored (ciphertext_of dir raw m) m (seal_inbound w dir raw m)
        × IsAt m (seal_inbound w dir raw m)
  unfolding seal_inbound
  seal_inbound-IsStored dir raw m =
      let body = message_body m in
      elim (Bool-cases (is_empty body)) [
        | inl e ↦ rw (seal_inbound, e) (IsStored-refl m)
        | inr e ↦ elim (Bool-cases (contains (codes "-----BEGIN PGP MESSAGE-----") body)) [
          | inl q ↦ rw (seal_inbound, e, q) (IsStored-refl m)
          | inr q ↦
              rw (seal_inbound, e, q) (sealed-IsStored (plaintext_of raw m) (w.account_key dir) m)
        ]
      ]

  -- A message in the inbox of an account.
  abbrev placed : ℕ → AccountStore Store → Email → Email
  placed n a m = record m {
    id = make_message_id (first_of m.message_id) a.email (w.millis n);
    received_at = some w.now;
    mailbox_ids = (inbox_of a.email (mailboxes a.store), true) ∷ [];
  }

  HasText-placed :
      (n : ℕ) (a : AccountStore Store) (text : Option Str) (m s : Email)
      → HasText text (placed n a m) s
      → HasText text m s
  HasText-placed n a none m s h = h
  HasText-placed n a (some text) m s h = h

  -- The message that is filed for an account is the one that was parsed, sealed or not.
  pub filed-IsStored :
      (n : ℕ) (a : AccountStore Store) (raw : Str) (m : Email)
      → IsStored (ciphertext_of a.dir raw m) m (filed w n a raw m)
        × ((filed w n a raw m).id ≡ make_message_id (first_of m.message_id) a.email (w.millis n))
        × ((filed w n a raw m).mailbox_ids ≡ (inbox_of a.email (mailboxes a.store), true) ∷ [])
        × ((filed w n a raw m).received_at ≡ some w.now)
  unfolding filed message_body
  filed-IsStored n a raw m =
      let ((head, text), (id, mailbox, time)) = seal_inbound-IsStored a.dir raw (placed n a m) in
      (
        (head, HasText-placed n a (ciphertext_of a.dir raw m) m (filed w n a raw m) text),
        id,
        mailbox,
        time,
      )

  with_new_thread-IsStored :
      (text : Option Str) (m letter : Email) (thread : Str)
      → IsStored text m letter
      → IsStored text m (record letter { thread_id = thread })
  with_new_thread-IsStored none m letter thread h = h
  with_new_thread-IsStored (some text) m letter thread h = h

  pub with_thread-IsStored :
      (text : Option Str) (m letter : Email) (s : Store)
      → IsStored text m letter
      → IsStored text m (with_thread letter s)
        × ((with_thread letter s).mailbox_ids ≡ letter.mailbox_ids)
        × ((with_thread letter s).received_at ≡ letter.received_at)
  unfolding with_thread
  with_thread-IsStored text m letter s h = elim (Bool-cases (is_empty letter.thread_id)) [
    | inl e ↦
        rw (with_thread, e)
          (with_new_thread-IsStored text m letter (resolve_thread_id letter s) h, refl, refl)
    | inr e ↦ rw (with_thread, e) (h, refl, refl)
  ]
