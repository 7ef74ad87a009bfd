-- ===== src/Queue/Retries.antt =====
-- No message leaves the queue untold (crates/jmapsmtp/src/queue.rs).
use jmapsmtp.Prelude.{
  ℕ, suc, true, false, Option, none, some, List, [], ◌∷◌, ◌++◌, Str, ◌≡◌, refl, length,
  Option-cases, ◌⊎◌, inl, inr,
}
use jmapsmtp.Map
use jmapsmtp.Map.{Map, lookup-remove_self}
use jmapsmtp.Keys.{text_ord}
use jmapsmtp.Result.{Result}
use jmapsmtp.Words.{succ_u32}
use jmapsmtp.Accounts.{AccountStore}
use jmapsmtp.Store.{Store}
use jmapsmtp.Smtp.Errors.{SendError, to_string}
use jmapsmtp.Delivery.{World, Relay, find_account, store_message, deliver_to}
use jmapsmtp.Delivery.Filing.{find_account-replaced}
use jmapsmtp.Queue.{Entry, Slot, working, slot_of, remove, deferred_entry}
use jmapsmtp.Queue.Policy.{Temporality, temporary, permanent, backoff}
use jmapsmtp.Queue.Retry.{State, Moment, notice, postmaster, u, report_failure, retry_one}

-- The directory of an entry whose message is there.
abbrev pub slot_with : Str → Entry → Slot
slot_with raw entry = record { message_file = some raw; meta = some (some entry) }

module _ (w : World) (hostname : Str) (deliver : Str → List Str → Str → Result SendError Unit) where
  -- What the sender is told: nothing without a local account, else the account has what storing the
  -- notice leaves, which the log says the outcome of, and the clients are woken.
  abbrev pub IsTold : Moment → Entry → Str → Relay → Relay → Option (AccountStore Store) → Type 0
  IsTold m entry error r r' none = r' ≡ r
  IsTold m entry error r r' (some a) =
      let raw = notice hostname m entry error in
      (find_account w entry.from r'.accounts ≡ some (store_message w 0 a raw).0)
      × (r'.activity
          ≡ r.activity
            ++ record {
              account = a.email;
              peer = postmaster;
              bytes = length raw;
              succeeded = (store_message w 0 a raw).1;
            }
              ∷ [])
      × (r'.wake_ups ≡ suc r.wake_ups)

  pub report_failure-IsTold :
      (m : Moment) (entry : Entry) (error : Str) (r : Relay)
      → IsTold m entry error r
          (report_failure w hostname deliver m entry error r)
          (find_account w entry.from r.accounts)
  unfolding report_failure deliver_to
  report_failure-IsTold m entry error r =
      elim (Option-cases (find_account w entry.from r.accounts)) [
        | inl e ↦ rw (e, IsTold) (rw (report_failure, e) refl)
        | inr (a, e) ↦
            let raw = notice hostname m entry error in
            rw (e, IsTold)
              (rw (report_failure, e)
                (rw (deliver_to, e)
                  (
                    find_account-replaced w entry.from (store_message w 0 a raw).0 a r.accounts e,
                    refl,
                    refl,
                  )))
      ]

  -- The entry is gone, the delivery is counted, and nobody is told anything.
  abbrev pub IsDelivered : Entry → State → State → Type 0
  IsDelivered entry s s' =
      (s'.queue ≡ Map.remove entry.id s.queue)
      × (s'.outbound ≡ s.outbound ++ true ∷ [])
      × (s'.relay ≡ s.relay)

  -- The entry is gone, the failure is counted, and the sender is told the error.
  abbrev pub IsGivenUp : Moment → Entry → Str → State → State → Type 0
  IsGivenUp m entry error s s' =
      (s'.queue ≡ Map.remove entry.id s.queue)
      × (s'.outbound ≡ s.outbound ++ false ∷ [])
      × IsTold m entry error s.relay s'.relay (find_account w entry.from s.relay.accounts)

  -- The entry and its message are in the queue for the next attempt, and nothing is counted or told.
  abbrev pub IsDeferred : Moment → Entry → Str → Str → ℕ → State → State → Type 0
  IsDeferred m entry raw error wait s s' =
      (Map.lookup entry.id s'.queue
        ≡ some (slot_with raw (deferred_entry entry error m.deferred wait)))
      × (s'.outbound ≡ s.outbound)
      × (s'.relay ≡ s.relay)

  -- A refusal: the entry is given up if it is for good or no attempt is left, else deferred.
  abbrev pub IsFailed : Moment → Entry → Str → SendError → Temporality → State → State → Type 0
  IsFailed m entry raw e t s s' =
      (((t ≡ permanent) ⊎ (backoff (succ_u32 entry.attempts) ≡ none))
        × IsGivenUp m entry (to_string (u w hostname deliver) e) s s')
      ⊎ ((t ≡ temporary)
          × ((wait : ℕ) × (backoff (succ_u32 entry.attempts) ≡ some wait)
              × IsDeferred m entry raw (to_string (u w hostname deliver) e) wait s s'))

  -- The attempts at the entry that stands in a slot, at the given moments.
  unfoldable pub retry_slot : Moment → Option (Option Entry) → State → State
  retry_slot m (some (some entry)) s = retry_one w hostname deliver working m entry s
  retry_slot m _ s = s

  unfoldable pub retries : List Moment → Str → State → State
  unfolding retry_slot
  retries [] id s = s
  retries (m ∷ moments) id s = retries moments id (retry_slot m (slot_of id s.queue).meta s)
