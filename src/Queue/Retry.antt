-- ===== src/Queue/Retry.antt =====
-- One attempt at a message in the queue, `retry_one` of crates/jmapsmtp/src/queue.rs, and what the sender
-- is told when there is no further one, `report_failure`.
use jmapsmtp.Prelude.{
  ℕ, ◌+◌, ◌-◌, ◌/◌, ◌%◌, ◌^◌, suc, Bool, true, false, none, some, List, [], ◌∷◌, ◌++◌, Str, codes,
  if◌then◌else◌, ltb, ◌==◌, join,
}
use jmapsmtp.Result.{Result, ok, err}
use jmapsmtp.Decimal.{print}
use jmapsmtp.Accounts.{resolve}
use jmapsmtp.Smtp.{Unicode}
use jmapsmtp.Smtp.Errors.{SendError, to_string}
use jmapsmtp.Delivery.{World, Relay, line_end, find_account, deliver_to}
use jmapsmtp.Queue.{
  Entry, Queue, Disk, message, remove, defer, Deferred, next_try, ran_out, not_updated,
}
use jmapsmtp.Queue.Policy.{Temporality, temporary, permanent, classify}

-- What an attempt changes: the queue, the accounts, and the outcomes that are counted, in order.
pub record State : Type 0 where
  pub queue : Queue
  pub relay : Relay
  pub outbound : List Bool

-- The times that an attempt reads off the clock, when it defers and when it reports, and the text of the
-- second as a date.
pub record Moment : Type 0 where
  pub deferred : ℕ
  pub reported : ℕ
  pub date : Str

-- Whole minutes of milliseconds.
unfoldable pub human_duration : ℕ → Str
unfolding print
human_duration millis =
    let mins = millis / 1000 / 60 in
    if ltb mins 60
    then print mins ++ codes " min"
    else if mins % 60 == 0
    then print (mins / 60) ++ codes " h"
    else print (mins / 60) ++ codes " h " ++ print (mins % 60) ++ codes " min"

-- `(now_millis() - entry.first_queued).max(0)`, of bit patterns.
unfoldable pub held_for : ℕ → ℕ → ℕ
held_for now queued =
    let held = (now + 2 ^ 64 - queued) % 2 ^ 64 in if ltb held (2 ^ 63) then held else 0

abbrev ended : Str → Str
ended s = s ++ line_end

unfoldable pub notice_body : Moment → Entry → Str → Str
unfolding human_duration held_for print join
notice_body m entry error =
    ended (codes "Delivery to the following recipients failed permanently:")
    ++ ended []
    ++ ended (codes "\t" ++ join (line_end ++ codes "\t") entry.to)
    ++ ended []
    ++ ended (
        codes "The relay held this message for "
        ++ human_duration (held_for m.reported entry.first_queued)
        ++ codes " and made "
        ++ print entry.attempts
        ++ codes " attempts.")
    ++ ended (codes "The last response from the receiving server was:")
    ++ ended []
    ++ ended (codes "\t" ++ error)

unfoldable pub notice : Str → Moment → Entry → Str → Str
unfolding notice_body join
notice hostname m entry error =
    ended (codes "From: Mail Delivery System <postmaster@" ++ hostname ++ codes ">")
    ++ ended (codes "To: " ++ entry.from)
    ++ ended (codes "Subject: Undelivered mail: " ++ join (codes ", ") entry.to)
    ++ ended (codes "Date: " ++ m.date)
    ++ ended (codes "Message-ID: <queue-" ++ entry.id ++ codes "@" ++ hostname ++ codes ">")
    ++ ended (codes "Content-Type: text/plain; charset=utf-8")
    ++ ended []
    ++ notice_body m entry error

abbrev pub postmaster : Str
postmaster = codes "postmaster"

module _ (w : World) (hostname : Str) (deliver : Str → List Str → Str → Result SendError Unit) where
  abbrev pub u : Unicode
  u = w.platform.unicode

  -- A sender without a local account is not told. `deliver_local` stores the notice and logs how that
  -- went, which is a round of `deliver`; the clients are woken in either case.
  unfoldable pub report_failure : Moment → Entry → Str → Relay → Relay
  unfolding resolve notice deliver_to
  report_failure m entry error r = elim (find_account w entry.from r.accounts) [
    | none ↦ r
    | some account ↦
        let r' = deliver_to w 0 postmaster (notice hostname m entry error) entry.from r in
        record r' { wake_ups = suc r'.wake_ups }
  ]

  -- A failure that is final is counted and reported.
  abbrev pub failed : Moment → Entry → Str → Queue → State → State
  failed m entry error q s = record {
    queue = q;
    relay = report_failure m entry error s.relay;
    outbound = s.outbound ++ false ∷ [];
  }

  unfoldable pub after_deferral : Moment → Entry → Str → Deferred → Queue → State → State
  unfolding report_failure
  after_deferral m entry error (next_try next) q s = record s { queue = q }
  after_deferral m entry error ran_out q s = failed m entry error q s
  after_deferral m entry error not_updated q s = record s { queue = q }

  unfoldable pub after_failure : Disk → Moment → Entry → SendError → Temporality → State → State
  unfolding remove defer to_string after_deferral report_failure
  after_failure d m entry e permanent s =
      failed m entry (to_string u e) (remove d entry.id s.queue).0 s
  after_failure d m entry e temporary s =
      let answer = defer d m.deferred entry (to_string u e) s.queue in
      after_deferral m entry (to_string u e) answer.1 answer.0 s

  unfoldable pub after_send : Disk → Moment → Entry → Result SendError Unit → State → State
  unfolding remove classify after_failure
  after_send d m entry (ok _) s = record s {
    queue = (remove d entry.id s.queue).0;
    outbound = s.outbound ++ true ∷ [];
  }
  after_send d m entry (err e) s = after_failure d m entry e (classify u e) s

  -- `retry_one`, with the outcome of `Sender::deliver` as a function.
  unfoldable pub retry_one : Disk → Moment → Entry → State → State
  unfolding message remove after_send
  retry_one d m entry s = elim (message entry.id s.queue) [
    | none ↦ record s { queue = (remove d entry.id s.queue).0 }
    | some raw ↦ after_send d m entry (deliver entry.from entry.to raw) s
  ]
