-- ===== src/Examples/Retry.antt =====
-- A message that a server keeps refusing for the time being.
use jmapsmtp.Prelude.{[], ◌∷◌, List, Str, codes, ◌≡◌, refl, length, text_compare, trim_start}
use jmapsmtp.Map
use jmapsmtp.Map.{Map}
use jmapsmtp.Keys.{text_ord}
use jmapsmtp.Result.{Result, err}
use jmapsmtp.Words.{succ_u32}
use jmapsmtp.Examples.Inbound.{world, relay}
use jmapsmtp.Smtp.Errors.{SendError, rejected}
use jmapsmtp.Queue.Policy.{total_window}
use jmapsmtp.Accounts.{resolve}
use jmapsmtp.Queue.{Entry, Queue}
use jmapsmtp.Queue.Retry.{State, Moment, notice_body, retry_one}
use jmapsmtp.Queue.Retries.{slot_with, retries}

abbrev entry : Entry
entry = record {
  id = codes "1";
  from = codes "a@x";
  to = codes "x@y" ∷ [];
  attempts = 1;
  next_attempt = 60000;
  first_queued = 0;
  last_error = codes "451";
}

abbrev queue : Queue
queue = (codes "1", slot_with (codes "hi") entry) ∷ []

abbrev greylist : SendError
greylist = rejected (codes "MAIL FROM") (codes "451 later")

abbrev busy : Str → List Str → Str → Result SendError Unit
busy from to raw = err greylist

abbrev state : State
state = record { queue = queue; relay = relay; outbound = [] }

abbrev moment : Moment
moment = record {
  deferred = 60000;
  reported = 5460000;
  date = codes "Thu, 1 Jan 1970 01:31:00 +0000";
}

abbrev host : Str
host = codes "mx.x"

abbrev moments : List Moment
moments = moment ∷ moment ∷ moment ∷ moment ∷ moment ∷ moment ∷ moment ∷ []

-- The sender has an account, and one notice is filed for it.
told_once : length (retries world host busy moments (codes "1") state).relay.activity ≡ 1
unfolding retries resolve Map.lookup text_compare retry_one trim_start Map.insert
told_once = refl

told_text :
    notice_body moment entry (codes "late")
    ≡ codes
        "Delivery to the following recipients failed permanently:\r\n\r\n\tx@y\r\n\r\nThe relay held this message for 1 h 31 min and made 1 attempts.\r\nThe last response from the receiving server was:\r\n\r\n\tlate\r\n"
unfolding notice_body
told_text = refl

-- Fifteen hours and twenty-one minutes.
total_window_lem : total_window ≡ 55260
unfolding total_window succ_u32
total_window_lem = refl
