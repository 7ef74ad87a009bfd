-- ===== src/Queue/GiveUp.antt =====
-- An entry that is refused for the time being again and again leaves the queue, and the sender is
-- told (crates/jmapsmtp/src/queue.rs).
use jmapsmtp.Prelude.{◌+◌, false, List, [], ◌∷◌, ◌++◌, Str, ◌≡◌, length}
use jmapsmtp.Map
use jmapsmtp.Map.{Map}
use jmapsmtp.Keys.{text_ord}
use jmapsmtp.Result.{Result}
use jmapsmtp.Smtp.Errors.{SendError, to_string}
use jmapsmtp.Delivery.{World, find_account}
use jmapsmtp.Queue.{Entry}
use jmapsmtp.Queue.Retry.{State, Moment, u}
use jmapsmtp.Queue.Retries.{IsTold}

module _ (w : World) (hostname : Str) (deliver : Str → List Str → Str → Result SendError Unit)
    (raw : Str) (e : SendError) where
  abbrev error : Str
  error = to_string (u w hostname deliver) e

  -- The last attempt at an entry, at one of the moments: the seventh that fails after the first, with
  -- the id, the sender and the recipients of the entry and the time at which it was queued.
  abbrev pub IsLast : Entry → List Moment → Entry → Moment → Type 0
  IsLast entry moments last m =
      ((before : List Moment) × (after : List Moment) × (moments ≡ before ++ m ∷ after)
        × (length before + entry.attempts ≡ 7))
      × (last.attempts ≡ 7)
      × (last.id ≡ entry.id)
      × (last.from ≡ entry.from)
      × (last.to ≡ entry.to)
      × (last.first_queued ≡ entry.first_queued)

  -- The entry is gone, one failure is counted, and the sender is told the error, once.
  abbrev pub IsEnded : Entry → List Moment → State → State → Type 0
  IsEnded entry moments s s' =
      (Map.contains_key entry.id s'.queue ≡ false)
      × (s'.outbound ≡ s.outbound ++ false ∷ [])
      × ((last : Entry) × (m : Moment) × IsLast entry moments last m
          × IsTold w hostname deliver m last error s.relay s'.relay
              (find_account w entry.from s.relay.accounts))
