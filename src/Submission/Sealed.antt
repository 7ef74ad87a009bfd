-- ===== src/Submission/Sealed.antt =====
-- The copy of a submitted message that stays, and the one that goes out
-- (crates/jmapsmtp/src/submit.rs).
use jmapsmtp.Prelude.{
  Bool, true, false, none, some, [], Str, codes, if◌then◌else◌, is_empty, ◌≡◌, refl, ap, ◌∙◌, arith,
}
use jmapsmtp.Result.{ok}
use jmapsmtp.Map
use jmapsmtp.Map.{lookup-remove_self}
use jmapsmtp.Keys.{text_ord, same_refl}
use jmapsmtp.JmapTypes.{Email}
use jmapsmtp.Store.{Store, succeeded}
use jmapsmtp.Store.Messages.{put, get, with_thread}
use jmapsmtp.Store.Effects.{get-put}
use jmapsmtp.Hooks.{Envelope, sealed_value, seal_stored_body, stored_body}
use jmapsmtp.Hooks.Sealing.{is_part, lookup-seal_stored_body}
use jmapsmtp.Methods.Query.{contains}
use jmapsmtp.Mime.Build.{message_body}
use jmapsmtp.Submission.{
  Desk, Office, SendTask, after_put, stored_copy, admitted_envelope, on_submit_email,
}

module _ (d : Desk) where
  -- The text that stands for a body.
  abbrev pub ciphertext : Str → Str
  ciphertext sealed = d.wire.platform.from_utf8_lossy sealed

  abbrev without_draft : Email → Email
  without_draft msg = record msg { keywords = Map.remove (codes "$draft") msg.keywords }

  stored_copy-sealed :
      (dir key sealed : Str) (msg : Email)
      → d.wire.account_key dir ≡ some key
      → is_empty (message_body msg) ≡ false
      → contains (codes "-----BEGIN PGP MESSAGE-----") (message_body msg) ≡ false
      → d.encrypt_inline key (message_body msg) ≡ some sealed
      → stored_copy d dir msg ≡ seal_stored_body (ciphertext sealed) (without_draft msg)
  unfolding stored_copy stored_body message_body
  stored_copy-sealed dir key sealed msg k b p s = rw (stored_copy, stored_body, k, b, p, s) refl

  -- A copy of the message whose text is the ciphertext, which is no draft any more.
  abbrev pub IsSealedCopy : Email → Str → Email → Type 0
  IsSealedCopy msg text m =
      ((id : Str)
        → Map.lookup id m.body_values ≡ (
            if is_part id msg.text_body
            then some (sealed_value text)
            else if is_part id msg.html_body
            then none
            else Map.lookup id msg.body_values))
      × (m.html_body ≡ [])
      × (Map.lookup (codes "$draft") m.keywords ≡ none)

  with_thread-fields :
      (m : Email) (s : Store)
      → ((with_thread m s).body_values ≡ m.body_values)
        × ((with_thread m s).html_body ≡ m.html_body)
        × ((with_thread m s).keywords ≡ m.keywords)
  unfolding with_thread
  with_thread-fields m s = (ground arith, ground arith, ground arith)

  with_thread-IsSealedCopy :
      (msg : Email) (text : Str) (s : Store)
      → IsSealedCopy msg text (with_thread (seal_stored_body text (without_draft msg)) s)
  unfolding seal_stored_body
  with_thread-IsSealedCopy msg text s =
      let copy = seal_stored_body text (without_draft msg) in
      let (values, html, keywords) = with_thread-fields copy s in
      (
        λ id. ap (Map.lookup id) values ∙ (lookup-seal_stored_body text id (without_draft msg)).0,
        html,
        ap (Map.lookup (codes "$draft")) keywords
            ∙ lookup-remove_self (codes "$draft") msg.keywords,
      )

  id-sealed : (msg : Email) (text : Str) → (seal_stored_body text (without_draft msg)).id ≡ msg.id
  unfolding seal_stored_body
  id-sealed msg text = refl

  after_put-true :
      (task : SendTask) (r : Store × Bool) (o : Office)
      → r.1 ≡ true
      → ((after_put d task r o).1 ≡ ok task) × ((after_put d task r o).0.account.store ≡ r.0)
  after_put-true task (store, true) o h = (refl, refl)
  after_put-true task (store, false) o h = cc

  -- The message that is submitted goes out as it is, to the envelope that was admitted, and the copy that
  -- the account keeps is sealed and no draft. The submission is admitted, the account has a key, the body
  -- is not empty and holds no encrypted block, the encryption succeeds and the file is written.
  pub on_submit_email-IsSealedCopy :
      (key sealed : Str) (msg : Email) (supplied envelope : Envelope) (o : Office)
      → admitted_envelope d o.account msg supplied ≡ ok envelope
      → d.wire.account_key o.account.dir ≡ some key
      → is_empty (message_body msg) ≡ false
      → contains (codes "-----BEGIN PGP MESSAGE-----") (message_body msg) ≡ false
      → d.encrypt_inline key (message_body msg) ≡ some sealed
      → succeeded d.io.message_file ≡ true
      → ((task : SendTask) × ((on_submit_email d msg supplied o).1 ≡ ok task)
          × (task.outbound ≡ msg)
          × (task.envelope ≡ envelope))
        × ((kept : Email) × (get msg.id (on_submit_email d msg supplied o).0.account.store
              ≡ some kept)
            × IsSealedCopy msg (ciphertext sealed) kept)
  unfolding on_submit_email
  on_submit_email-IsSealedCopy key sealed msg supplied envelope o a k b p s written =
      let dir = o.account.dir in
      let store = o.account.store in
      let copy = seal_stored_body (ciphertext sealed) (without_draft msg) in
      let same : stored_copy d dir msg ≡ copy = stored_copy-sealed dir key sealed msg k b p s in
      let task : SendTask = record {
        outbound = msg;
        stored = stored_copy d dir msg;
        envelope = envelope;
        body = message_body msg;
      } in
      let r = put d.io (stored_copy d dir msg) store in
      let done : on_submit_email d msg supplied o ≡ after_put d task r o =
        rw (on_submit_email, a) refl in
      let (written_to, got, _) = get-put d.io copy store msg.id in
      let accepted : r.1 ≡ true = rw (same) (written_to ∙ written) in
      let (answer, kept) = after_put-true task r o accepted in
      (
        (task, ap (λ x. x.1) done ∙ answer, refl, refl),
        (
          with_thread copy store,
          ap (λ x. get msg.id x.0.account.store) done
              ∙ ap (get msg.id) kept
              ∙ ap (λ m. get msg.id (put d.io m store).0) same
              ∙ got
              ∙ rw (written, id-sealed msg (ciphertext sealed), same_refl msg.id) refl,
          with_thread-IsSealedCopy msg (ciphertext sealed) store,
        ),
      )
