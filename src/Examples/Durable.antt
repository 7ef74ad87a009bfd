-- ===== src/Examples/Durable.antt =====
-- What a restart and the single operations do, on a small store.
use jmapsmtp.Prelude.{text_compare, false, List, [], ◌∷◌, codes, ◌≡◌, refl, is_empty}
use jmapsmtp.Map
use jmapsmtp.Keys.{text_ord}
use jmapsmtp.JmapTypes.{Email, empty_email}
use jmapsmtp.Store.{empty_store, all_written}
use jmapsmtp.Store.Messages.{put, delete}
use jmapsmtp.Store.Mailboxes.{open_store, load_state}
use jmapsmtp.Store.History.{Op, put_op, delete_op, run}
use jmapsmtp.Store.Durable.{SameLog, open_store-run}
use jmapsmtp.Store.Effects.{thread-run}

abbrev email : Email
email = record empty_email { id = codes "msg-1"; thread_id = codes "thread" }

abbrev script : List Op
script = put_op all_written email ∷ delete_op all_written (codes "msg-2") ∷ []

open_store-run_example :
    SameLog (open_store (run script empty_store).disk).inner (run script empty_store).inner
unfolding load_state
open_store-run_example =
    open_store-run script empty_store (refl, (refl, tt))
      (record {
        state = refl;
        changes = refl;
        mailbox_state = refl;
        mailbox_changes = refl;
        submissions = refl;
        submission_state = refl;
      })

thread-run_example : is_empty email.thread_id ≡ false
unfolding run put delete Map.lookup Map.insert Map.remove Map.contains_key text_compare
thread-run_example = thread-run script (codes "msg-1") email refl
