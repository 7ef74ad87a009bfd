-- ===== src/Delivery/Filing.antt =====
-- What a delivery leaves in the stores (crates/jmapsmtp/src/delivery.rs).
use jmapsmtp.Prelude.{
  ℕ, suc, Bool, true, false, Option, some, List, [], ◌∷◌, Str, ◌≡◌, ◌≢◌, refl, ◌∙◌, arith, All,
  Option-cases, inl, inr,
}
use jmapsmtp.Result.{ok}
use jmapsmtp.Map
use jmapsmtp.Map.{lookup-insert, lookup-insert_self}
use jmapsmtp.Keys.{text_ord, same_iff, same_refl}
use jmapsmtp.JmapTypes.{Email}
use jmapsmtp.Accounts.{AccountStore, Accounts, resolve}
use jmapsmtp.Store.{Store, succeeded}
use jmapsmtp.Store.Messages
use jmapsmtp.Store.Messages.{put, with_thread}
use jmapsmtp.Delivery.Stored.{IsStored, ciphertext_of, filed-IsStored, with_thread-IsStored}
use jmapsmtp.Store.Mailboxes.{mailboxes}
use jmapsmtp.Store.Effects.{get-put}
use jmapsmtp.Hooks.{within_storage_cap}
use jmapsmtp.Mime.Message.{parse_mime_email}
use jmapsmtp.Delivery.{
  World, Relay, make_message_id, inbox_of, first_of, carries_nothing, filed, store_message,
  replace_account, find_account, deliver_to, deliver_all, deliver,
}

module _ (w : World) where
  -- The entry of the alias map that an address leads through.
  abbrev pub primary_of : Str → Accounts Store → Option Str
  primary_of address t = Map.lookup (w.platform.unicode.to_lowercase address) t.aliases

  aliases-replace_account :
      (address : Str) (account : AccountStore Store) (t : Accounts Store)
      → (replace_account w address account t).aliases ≡ t.aliases
  unfolding replace_account
  aliases-replace_account address account t = ground arith

  pub find_account-replaced :
      (address : Str) (account a : AccountStore Store) (t : Accounts Store)
      → find_account w address t ≡ some a
      → find_account w address (replace_account w address account t) ≡ some account
  unfolding resolve replace_account
  find_account-replaced address account a t h = elim (Option-cases (primary_of address t)) [
    | inl e ↦ ground arith
    | inr (primary, e) ↦ ground (arith, lookup-insert_self primary account t.stores)
  ]

  find_account-kept :
      (address j : Str) (account : AccountStore Store) (t : Accounts Store)
      → primary_of address t ≢ primary_of j t
      → find_account w j (replace_account w address account t) ≡ find_account w j t
  unfolding resolve replace_account
  find_account-kept address j account t h = elim (Option-cases (primary_of address t)) [
    | inl e ↦ ground arith
    | inr (p, e) ↦ elim (Option-cases (primary_of j t)) [
      | inl q ↦ ground arith
      | inr (k, q) ↦ ground (arith, lookup-insert p k account t.stores, same_iff k p)
    ]
  ]

  -- The id under which a message is stored.
  abbrev pub stored_id : ℕ → AccountStore Store → Email → Str
  stored_id n a m = make_message_id (first_of m.message_id) a.email (w.millis n)

  abbrev pub inbox_ids : AccountStore Store → Map.Map Str Bool
  inbox_ids a = (inbox_of a.email (mailboxes a.store), true) ∷ []

  -- A message that is stored: the account has it in the inbox, with its head as it was parsed, and its
  -- text as it was parsed or sealed for the account.
  abbrev pub HasMessage : ℕ → AccountStore Store → Str → Email → Store → Type 0
  HasMessage n a raw m s =
      (stored : Email) × (Messages.get (stored_id n a m) s ≡ some stored)
      × (stored.mailbox_ids ≡ inbox_ids a)
      × (stored.received_at ≡ some w.now)
      × IsStored w (ciphertext_of w a.dir raw m) m stored

  store_message-HasMessage :
      (n : ℕ) (a : AccountStore Store) (raw : Str) (m : Email)
      → within_storage_cap w.storage_cap (w.used a) ≡ ok tt
      → parse_mime_email w.platform raw w.now ≡ some m
      → carries_nothing w m ≡ false
      → succeeded (w.io n).message_file ≡ true
      → (s : Store) × (store_message w n a raw ≡ (record a { store = s }, true))
        × HasMessage n a raw m s
  unfolding store_message
  store_message-HasMessage n a raw m room parsed full works =
      let f = filed w n a raw m in
      let (letter, id, place, time) = filed-IsStored w n a raw m in
      let (done, got, _) = get-put (w.io n) f a.store (stored_id n a m) in
      let (same, kept, stamp) =
        with_thread-IsStored w (ciphertext_of w a.dir raw m) m f a.store letter in
      (
        (put (w.io n) f a.store).0,
        rw (store_message, room, parsed, full, done, works),
        (
          with_thread f a.store,
          got ∙ rw (works, id, same_refl (stored_id n a m)),
          kept ∙ place,
          stamp ∙ time,
          same,
        ),
      )

  aliases-deliver_to :
      (n : ℕ) (from raw rcpt : Str) (r : Relay)
      → (deliver_to w n from raw rcpt r).accounts.aliases ≡ r.accounts.aliases
  unfolding deliver_to
  aliases-deliver_to n from raw rcpt r = elim (Option-cases (find_account w rcpt r.accounts)) [
    | inl e ↦ rw (deliver_to, e)
    | inr (a, e) ↦
        rw (deliver_to, e) (aliases-replace_account rcpt (store_message w n a raw).0 r.accounts)
  ]

  find_account-deliver_to :
      (n : ℕ) (from raw rcpt j : Str) (r : Relay)
      → primary_of rcpt r.accounts ≢ primary_of j r.accounts
      → find_account w j (deliver_to w n from raw rcpt r).accounts ≡ find_account w j r.accounts
  unfolding deliver_to
  find_account-deliver_to n from raw rcpt j r h =
      elim (Option-cases (find_account w rcpt r.accounts)) [
        | inl e ↦ rw (deliver_to, e)
        | inr (a, e) ↦
            rw (deliver_to, e) (find_account-kept rcpt j (store_message w n a raw).0 r.accounts h)
      ]

  -- No address of a list leads where this one does.
  abbrev pub IsElsewhere : Str → Accounts Store → List Str → Type 0
  IsElsewhere j t = All (λ rcpt. primary_of rcpt t ≢ primary_of j t)

  IsElsewhere-deliver_to :
      (n : ℕ) (from raw rcpt j : Str) (r : Relay) (rcpts : List Str)
      → IsElsewhere j r.accounts rcpts
      → IsElsewhere j (deliver_to w n from raw rcpt r).accounts rcpts
  IsElsewhere-deliver_to n from raw rcpt j r [] h = tt
  IsElsewhere-deliver_to n from raw rcpt j r (k ∷ rcpts) h = (
    rw (aliases-deliver_to n from raw rcpt r) h.0,
    IsElsewhere-deliver_to n from raw rcpt j r rcpts h.1,
  )

  find_account-deliver_all :
      (n : ℕ) (from raw : Str) (rcpts : List Str) (j : Str) (r : Relay)
      → IsElsewhere j r.accounts rcpts
      → find_account w j (deliver_all w n from raw rcpts r).accounts ≡ find_account w j r.accounts
  unfolding deliver_all
  find_account-deliver_all n from raw [] j r h = refl
  find_account-deliver_all n from raw (rcpt ∷ rcpts) j r h =
      find_account-deliver_all (suc n) from raw rcpts j (deliver_to w n from raw rcpt r)
        (IsElsewhere-deliver_to n from raw rcpt j r rcpts h.1)
      ∙ find_account-deliver_to n from raw rcpt j r h.0

  -- The account of the first recipient has the message in its inbox, stamped with the time, with the
  -- headers, the subject, the addresses, the references and the attachments that were parsed. Its text
  -- is what was parsed if it is empty or encrypted already, the account has no key, or the encryption
  -- fails; else every text part is the ciphertext, and there is no HTML part. The account of an address
  -- that leads to none of the recipients' accounts is as it was. The account has room, the message
  -- parses and carries something, the file is written, and no other recipient leads to the same account.
  pub deliver-filed :
      (from raw rcpt j : Str) (rcpts : List Str) (r : Relay) (a : AccountStore Store) (m : Email)
      → find_account w rcpt r.accounts ≡ some a
      → within_storage_cap w.storage_cap (w.used a) ≡ ok tt
      → parse_mime_email w.platform raw w.now ≡ some m
      → carries_nothing w m ≡ false
      → succeeded (w.io 0).message_file ≡ true
      → IsElsewhere rcpt r.accounts rcpts
      → IsElsewhere j r.accounts (rcpt ∷ rcpts)
      → ((s : Store) × (find_account w rcpt (deliver w from (rcpt ∷ rcpts) raw r).accounts
            ≡ some (record a { store = s }))
          × HasMessage 0 a raw m s)
        × (find_account w j (deliver w from (rcpt ∷ rcpts) raw r).accounts
            ≡ find_account w j r.accounts)
  unfolding deliver deliver_all deliver_to
  deliver-filed from raw rcpt j rcpts r a m found room parsed full works alone other =
      let (s, stored, has) = store_message-HasMessage 0 a raw m room parsed full works in
      let r' = deliver_to w 0 from raw rcpt r in
      let here : find_account w rcpt r'.accounts ≡ some (record a { store = s }) =
        rw (deliver_to, found, stored)
          (find_account-replaced rcpt (record a { store = s }) a r.accounts found) in
      (
        (
          s,
          find_account-deliver_all 1 from raw rcpts rcpt r'
                (IsElsewhere-deliver_to 0 from raw rcpt rcpt r rcpts alone)
              ∙ here,
          has,
        ),
        find_account-deliver_all 0 from raw (rcpt ∷ rcpts) j r other,
      )
