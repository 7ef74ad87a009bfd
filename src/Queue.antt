-- ===== src/Queue.antt =====
-- crates/jmapsmtp/src/queue.rs: the messages that could not be delivered yet, one directory each
-- under `_queue`.
use jmapsmtp.Prelude.{
  ℕ, zero, suc, ◌+◌, ◌*◌, ◌%◌, ◌^◌, Bool, true, false, Option, none, some, List, [], ◌∷◌, ◌++◌, Str,
  not, if◌then◌else◌, keep_if, is_some,
}
use jmapsmtp.Map
use jmapsmtp.Map.{Map}
use jmapsmtp.Keys.{text_ord}
use jmapsmtp.Words.{succ_u32, ltb_i64}
use jmapsmtp.Queue.Policy.{backoff}
pub mod Policy
pub mod Retry
pub mod Retries
pub mod GiveUp

pub record Entry : Type 0 where
  pub id : Str
  pub from : Str
  pub to : List Str
  pub attempts : ℕ
  pub next_attempt : ℕ
  pub first_queued : ℕ
  pub last_error : Str

-- One directory: `message.eml`, and `meta.json`, whose text may be no entry.
pub record Slot : Type 0 where
  pub message_file : Option Str
  pub meta : Option (Option Entry)

abbrev pub Queue : Type 0
Queue = Map Str Slot

-- Which operations on the file system succeed.
pub record Disk : Type 0 where
  pub create : Bool
  pub write_message : Bool
  pub write_meta : Bool
  pub remove_all : Bool

abbrev pub working : Disk
working = record { create = true; write_message = true; write_meta = true; remove_all = true }

abbrev pub empty_slot : Slot
empty_slot = record { message_file = none; meta = none }

abbrev slot_or_new : Option Slot → Slot
slot_or_new none = empty_slot
slot_or_new (some s) = s

abbrev pub slot_of : Str → Queue → Slot
slot_of id q = slot_or_new (Map.lookup id q)

-- `now_millis() + wait` as an `i64`.
abbrev after_wait : ℕ → Option ℕ → ℕ
after_wait now none = now
after_wait now (some secs) = (now + secs * 1000) % 2 ^ 64

unfoldable pub new_entry : Str → Str → List Str → Str → ℕ → ℕ → Entry
unfolding backoff
new_entry id from to error scheduled queued = record {
  id = id;
  from = from;
  to = to;
  attempts = 1;
  next_attempt = after_wait scheduled (backoff 1);
  first_queued = queued;
  last_error = error;
}

-- `write_meta`: the file is replaced whole, or stays.
unfoldable pub write_meta : Disk → Entry → Queue → Queue × Bool
write_meta d entry q =
    if d.write_meta
    then (Map.insert entry.id (record (slot_of entry.id q) { meta = some (some entry) }) q, true)
    else (q, false)

-- `enqueue`, with the id that it draws and the times of its two calls of the clock. The message is
-- written before the metadata; `none` stands for the error.
unfoldable pub enqueue :
    Disk → Str → ℕ → ℕ → Str → List Str → Str → Str → Queue → Queue × Option Entry
unfolding new_entry write_meta
enqueue d id scheduled queued from to raw error q =
    if not d.create
    then (q, none)
    else if not d.write_message
    then (Map.insert id (slot_of id q) q, none)
    else let q' = Map.insert id (record (slot_of id q) { message_file = some raw }) q in
      let entry = new_entry id from to error scheduled queued in
      let written = write_meta d entry q' in (written.0, if written.1 then some entry else none)

-- `sort_by_key` of `first_queued`, a stable sort.
unfoldable pub insert_by_time : Entry → List Entry → List Entry
insert_by_time e [] = e ∷ []
insert_by_time e (x ∷ xs) =
    let rest = insert_by_time e xs in
    if ltb_i64 x.first_queued e.first_queued then x ∷ rest else e ∷ x ∷ xs

unfoldable pub sort_by_time : List Entry → List Entry
unfolding insert_by_time
sort_by_time [] = []
sort_by_time (e ∷ es) = insert_by_time e (sort_by_time es)

-- The entries in the order of the directory.
unfoldable pub entries : Queue → List Entry
entries [] = []
entries ((id, slot) ∷ q) = elim slot.meta [
  | none ↦ entries q
  | some m ↦ elim m [ none ↦ entries q | some e ↦ e ∷ entries q ]
]

unfoldable pub load_all : Queue → List Entry
unfolding entries sort_by_time
load_all q = sort_by_time (entries q)

abbrev pub is_due : ℕ → Entry → Bool
is_due now e = not (ltb_i64 now e.next_attempt)

unfoldable pub due : Queue → ℕ → List Entry
unfolding load_all
due q now = keep_if (is_due now) (load_all q)

unfoldable pub message : Str → Queue → Option Str
message id q = (slot_of id q).message_file

-- `remove`: the directory, which may be gone already.
unfoldable pub remove : Disk → Str → Queue → Queue × Bool
remove d id q = if d.remove_all then (Map.remove id q, true) else (q, not (Map.contains_key id q))

-- What `defer` answers: the entry with its next attempt, that the schedule has run out, or an error.
pub data Deferred : Type 0 where
  next_try : Entry → Deferred
  ran_out : Deferred
  not_updated : Deferred

unfoldable pub deferred_entry : Entry → Str → ℕ → ℕ → Entry
unfolding succ_u32
deferred_entry entry error now wait = record entry {
  attempts = succ_u32 entry.attempts;
  next_attempt = after_wait now (some wait);
  last_error = error;
}

unfoldable pub defer : Disk → ℕ → Entry → Str → Queue → Queue × Deferred
unfolding backoff remove write_meta deferred_entry
defer d now entry error q = elim (backoff (succ_u32 entry.attempts)) [
  | none ↦
      let removed = remove d entry.id q in (removed.0, if removed.1 then ran_out else not_updated)
  | some wait ↦
      let updated = deferred_entry entry error now wait in
      let written = write_meta d updated q in
      (written.0, if written.1 then next_try updated else not_updated)
]
