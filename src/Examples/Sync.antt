-- ===== src/Examples/Sync.antt =====
-- `Email/changes` over a short life of a store.
use jmapsmtp.Prelude.{◌&&◌, text_compare, false, List, [], ◌∷◌, Str, codes, ◌≡◌, refl, arith}
use jmapsmtp.Words.{succ_i64}
use jmapsmtp.Result.{ok}
use jmapsmtp.Decimal.{print, print_i64, parse_digits}
use jmapsmtp.Map
use jmapsmtp.Map.Set
use jmapsmtp.Keys.{text_ord}
use jmapsmtp.JmapTypes.{Email, empty_email}
use jmapsmtp.Store.{empty_store, all_written}
use jmapsmtp.Store.Messages.{put, delete}
use jmapsmtp.Store.History.{has, Op, put_op, delete_op, run}
use jmapsmtp.Store.Sync.{run-email_changes}
use jmapsmtp.Methods.Fold.{ChangeSets}
use jmapsmtp.Methods.Membership.{replayed}
use jmapsmtp.Methods.Changes.{email_changes, changes_response}

abbrev first_email : Email
first_email = record empty_email { id = codes "msg-1" }

abbrev second_email : Email
second_email = record empty_email { id = codes "msg-2" }

-- Two messages come, and the first goes.
abbrev script : List Op
script =
    put_op all_written first_email
    ∷ put_op all_written second_email
    ∷ delete_op all_written (codes "msg-1")
    ∷ []

run-email_changes_example :
    (sets : ChangeSets) × (email_changes (run script empty_store) (codes "a@b") (print_i64 0)
      ≡ ok (changes_response (codes "a@b") (print_i64 0) (run script empty_store).state sets))
    × ((id : Str) → has (run script empty_store) id ≡ replayed sets id (has empty_store id))
    × ((id : Str) → (Set.contains id sets.created && Set.contains id sets.destroyed) ≡ false)
run-email_changes_example = run-email_changes empty_store script (codes "a@b") (omega arith)

-- The second message is created and the first destroyed, in version 3.
script_changes :
    email_changes (run script empty_store) (codes "a@b") (codes "0")
    ≡ ok (record {
      account_id = codes "a@b";
      old_state = codes "0";
      new_state = codes "3";
      has_more_changes = false;
      created = codes "msg-2" ∷ [];
      updated = [];
      destroyed = codes "msg-1" ∷ [];
    })
unfolding email_changes parse_digits print_i64 print run put delete Map.lookup Map.insert Map.remove
    Map.contains_key Set.insert Set.remove Set.contains text_compare succ_i64
script_changes = refl
