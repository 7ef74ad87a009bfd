-- ===== src/Submission.antt =====
-- crates/jmapsmtp/src/submit.rs: a draft that is created, and a message that is submitted, with the
-- defaults of a draft (crates/jmapsmtp/src/hooks.rs). A submission returns before the message is sent;
-- what is left to do is a value, and `finish_send` does it. The JSON of a draft is read outside the model.
use jmapsmtp.Prelude.{
  ℕ, suc, Bool, true, false, Option, none, some, List, [], ◌∷◌, ◌++◌, Str, codes, if◌then◌else◌,
  is_empty, is_some, length, map,
}
use jmapsmtp.Result.{Result, ok, err, ◌>>=◌}
use jmapsmtp.Map
use jmapsmtp.Map.{Map}
use jmapsmtp.Keys.{text_ord}
use jmapsmtp.JmapTypes.{Email, Header}
use jmapsmtp.Accounts.{AccountStore}
use jmapsmtp.Store.{Store, Io}
use jmapsmtp.Store.Messages.{put, put_pending}
use jmapsmtp.Hooks.{
  Envelope, StoredBody, already_encrypted, encrypt_to_account_key, plaintext, stored_body,
  within_storage_cap, resolve_envelope, reply_only_allows, known_correspondents, seal_stored_body,
  activity_peer, sent_message_id,
}
use jmapsmtp.Mime.Build.{message_body}
use jmapsmtp.Mime.Address.{build_envelope}
use jmapsmtp.Outbound.{SendOutcome, sent, queued, Wire, activity_result, send}
use jmapsmtp.Queue.{Queue}
pub mod Sealed
pub mod Allowed

-- What the configuration says and the world gives: `io` is how a write of the store fares, and its failure
-- has a text. `new_id` and `new_message_id` are the ids that are drawn.
pub record Desk : Type 0 where
  pub wire : Wire
  pub storage_cap : ℕ
  pub used : Str → ℕ
  pub reply_only_outbound : Bool
  pub exempt_senders : List Str
  pub encrypt_inline : Str → Str → Option Str
  pub io : Io
  pub write_error : Str
  pub new_id : Str
  pub new_message_id : Str → Str
  pub received_at : Str

pub record ActivityEvent : Type 0 where
  pub account : Str
  pub peer : Str
  pub bytes : ℕ
  pub result : Str

-- What a submission changes: the account's store, the queue, the log, the counters and the wake-ups.
pub record Office : Type 0 where
  pub account : AccountStore Store
  pub queue : Queue
  pub activity : List ActivityEvent
  pub smtp_sent : ℕ
  pub smtp_failed : ℕ
  pub wake_ups : ℕ

-- The task that a submission starts.
pub record SendTask : Type 0 where
  pub outbound : Email
  pub stored : Email
  pub envelope : Envelope
  pub body : Str

abbrev header_of : Str × Str → Header
header_of (name, value) = record { name = name; value = value }

abbrev lacks_id : List Str → Bool
lacks_id [] = true
lacks_id (id ∷ ids) = is_empty id

module _ (d : Desk) where
  -- `extra` are the headers that the draft has as text, in their order.
  unfoldable pub prepare_draft : List (Str × Str) → Str → Email → Email
  prepare_draft extra domain msg = record msg {
    headers = msg.headers ++ map header_of extra;
    id = if is_empty msg.id then d.new_id else msg.id;
    message_id = if lacks_id msg.message_id then d.new_message_id domain ∷ [] else msg.message_id;
    received_at = some d.received_at;
  }

  unfoldable pub on_create_email : List (Str × Str) → Email → Office → Office × Result Str Email
  unfolding within_storage_cap prepare_draft put_pending
  on_create_email extra raw o =
      let msg = prepare_draft extra o.account.domain raw in
      elim (within_storage_cap d.storage_cap (d.used o.account.dir)) [
        | err e ↦ (o, err e)
        | ok u ↦ (
          record o { account = record o.account { store = put_pending msg o.account.store } },
          ok msg,
        )
      ]

  abbrev with_ciphertext : Option Str → Email → Email
  with_ciphertext none m = m
  with_ciphertext (some sealed) m = seal_stored_body (d.wire.platform.from_utf8_lossy sealed) m

  abbrev encrypted_to : Option Str → Str → Option Str
  encrypted_to none body = none
  encrypted_to (some key) body = d.encrypt_inline key body

  abbrev sealed_as : StoredBody → Option Str → Str → Email → Email
  sealed_as already_encrypted key body m = record m {
    keywords = Map.insert (codes "$e2e") true m.keywords;
  }
  sealed_as encrypt_to_account_key key body m = with_ciphertext (encrypted_to key body) m
  sealed_as plaintext key body m = m

  -- The copy that is kept.
  unfoldable pub stored_copy : Str → Email → Email
  unfolding message_body stored_body seal_stored_body
  stored_copy dir msg =
      let stored = record msg { keywords = Map.remove (codes "$draft") msg.keywords } in
      let body = message_body stored in
      let key = d.wire.account_key dir in
      if is_empty body then stored else sealed_as (stored_body body (is_some key)) key body stored

  -- The envelope of a submission that is allowed.
  unfoldable pub admitted_envelope : AccountStore Store → Email → Envelope → Result Str Envelope
  unfolding within_storage_cap resolve_envelope build_envelope reply_only_allows
      known_correspondents
  admitted_envelope account msg supplied = do
    _ ← within_storage_cap d.storage_cap (d.used account.dir)
    envelope ← resolve_envelope build_envelope msg supplied
    _ ←
        reply_only_allows d.wire.platform.unicode d.reply_only_outbound d.exempt_senders
          account.email envelope
          (known_correspondents d.wire.platform.unicode (Map.values account.store.msgs) [])
    ok envelope

  abbrev after_put : SendTask → Store × Bool → Office → Office × Result Str SendTask
  after_put task (store, false) o =
      (record o { account = record o.account { store = store } }, err d.write_error)
  after_put task (store, true) o = (
    record o { account = record o.account { store = store }; wake_ups = suc o.wake_ups },
    ok task,
  )

  unfoldable pub on_submit_email : Email → Envelope → Office → Office × Result Str SendTask
  unfolding admitted_envelope stored_copy message_body put
  on_submit_email msg supplied o = elim (admitted_envelope o.account msg supplied) [
    | err e ↦ (o, err e)
    | ok envelope ↦
        let stored = stored_copy o.account.dir msg in
        after_put
          (record { outbound = msg; stored = stored; envelope = envelope; body = message_body msg })
          (put d.io stored o.account.store) o
  ]

  abbrev result_text : Result Str SendOutcome → Str
  result_text (err e) = codes "failed"
  result_text (ok outcome) = activity_result outcome

  abbrev id_that_went_out : Option Str → Option Str
  id_that_went_out none = none
  id_that_went_out (some id) = sent_message_id id

  -- The stored copy has the id that the message went out with.
  abbrev renamed : Email → Option Str → Office → Office
  renamed stored none o = o
  renamed stored (some id) o = record o {
    account = record o.account {
      store = (put d.io (record stored { message_id = id ∷ [] }) o.account.store).0;
    };
    wake_ups = suc o.wake_ups;
  }

  abbrev recorded : Email → Result Str SendOutcome → Office → Office
  recorded stored (err e) o = record o { smtp_failed = suc o.smtp_failed }
  recorded stored (ok queued) o = o
  recorded stored (ok (sent id)) o =
      renamed stored (id_that_went_out id) (record o { smtp_sent = suc o.smtp_sent })

  -- The task: the message is sent, and what became of it is recorded.
  unfoldable pub finish_send : SendTask → Office → Office
  unfolding send activity_peer activity_result sent_message_id put
  finish_send task o =
      let (queue, result) = send d.wire o.account.dir task.outbound task.envelope o.queue in
      recorded task.stored result (record o {
        queue = queue;
        activity =
            o.activity
            ++ record {
              account = o.account.email;
              peer = activity_peer task.envelope;
              bytes = length task.body;
              result = result_text result;
            }
              ∷ [];
      })
