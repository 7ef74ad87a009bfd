-- ===== src/Store.antt =====
-- The mail store of crates/jmapserver/src/store.rs: what it keeps in memory, what it keeps on disk,
-- and the parts of it that every operation shares. The operations are in the children.
--
-- A file is modelled by the value that it parses to. An operation that writes is given the outcome
-- of each write that it makes, and ignores or reports a failure as the source does.
use jmapsmtp.Prelude.{
  ℕ, Bool, true, false, Option, none, some, List, [], ◌∷◌, ◌++◌, Str, ◌==◌, ◌||◌, ◌&&◌, map,
  if◌then◌else◌, zero, suc, get_elem?, take, length, leb, ltb,
}
use jmapsmtp.Map
use jmapsmtp.Map.{Map}
use jmapsmtp.Keys.{nat_ord, text_ord}
use jmapsmtp.Words.{succ_i64}
use jmapsmtp.JmapTypes.{Email, Mailbox, JsonObject}
pub mod Messages
pub mod Threads
pub mod Mailboxes
pub mod History
pub mod Sync
pub mod Effects
pub mod Durable

pub record ChangeRecord : Type 0 where
  pub added : List Str
  pub updated : List Str
  pub removed : List Str

pub record MailboxChangeRecord : Type 0 where
  pub created : List Str
  pub updated : List Str
  pub destroyed : List Str

-- `delta.json`.
pub record PersistedState : Type 0 where
  pub state : ℕ
  pub changes : Map ℕ ChangeRecord
  pub mailbox_state : ℕ
  pub mailbox_changes : Map ℕ MailboxChangeRecord
  pub submissions : List JsonObject
  pub submission_state : ℕ

pub record Inner : Type 0 where
  pub msgs : Map Str Email
  pub pending : Map Str Email
  pub state : ℕ
  pub changes : Map ℕ ChangeRecord
  pub identities : List JsonObject
  pub identity_state : ℕ
  pub mailbox_state : ℕ
  pub mailbox_changes : Map ℕ MailboxChangeRecord
  pub blobs : Map Str Str
  pub submissions : List JsonObject
  pub submission_state : ℕ
  pub vacation : Option JsonObject

-- The directory of a store. A file under messages/ that does not parse is there as `none`.
pub record Disk : Type 0 where
  pub messages : Map Str (Option Email)
  pub mailboxes : Option (List Mailbox)
  pub identities : Option (List JsonObject)
  pub delta : Option PersistedState

pub record Store : Type 0 where
  pub inner : Inner
  pub open inner use {
    msgs, pending, state, changes, identities, identity_state, mailbox_state, mailbox_changes,
    blobs, submissions, submission_state, vacation,
  }
  pub disk : Disk

-- How a write to a file ended: whole, refused with the old content in place, or cut short, which
-- leaves a file that does not parse.
pub data Write : Type 0 where
  written refused damaged : Write

-- The outcomes of the writes that one operation makes.
pub record Io : Type 0 where
  pub message_file : Write
  pub delta_file : Write
  pub mailboxes_file : Write
  pub identities_file : Write

abbrev pub all_written : Io
all_written = record {
  message_file = written;
  delta_file = written;
  mailboxes_file = written;
  identities_file = written;
}

-- A file that is one value, after a write of `a`.
abbrev pub write_value {ℓ} : {A : Type ℓ} → Write → A → Option A → Option A
write_value written a old = some a
write_value refused a old = old
write_value damaged a old = none

abbrev pub succeeded : Write → Bool
succeeded written = true
succeeded refused = false
succeeded damaged = false

-- `Inner::default()`.
abbrev pub empty_inner : Inner
empty_inner = record {
  msgs = [];
  pending = [];
  state = 0;
  changes = [];
  identities = [];
  identity_state = 0;
  mailbox_state = 0;
  mailbox_changes = [];
  blobs = [];
  submissions = [];
  submission_state = 0;
  vacation = none;
}

abbrev pub empty_disk : Disk
empty_disk = record { messages = []; mailboxes = none; identities = none; delta = none }

abbrev pub empty_store : Store
empty_store = record { inner = empty_inner; disk = empty_disk }

unfoldable pub persisted : Inner → PersistedState
persisted i = record {
  state = i.state;
  changes = i.changes;
  mailbox_state = i.mailbox_state;
  mailbox_changes = i.mailbox_changes;
  submissions = i.submissions;
  submission_state = i.submission_state;
}

-- `save_state_locked`: a failure is swallowed.
unfoldable pub save_state : Io → Store → Store
unfolding persisted
save_state io s = record s {
  disk = record s.disk { delta = write_value io.delta_file (persisted s.inner) s.disk.delta };
}

-- The next version, with its record in the change log.
unfoldable pub advance : ChangeRecord → Inner → Inner
advance rec i =
    let version = succ_i64 i.state in
    record i { state = version; changes = Map.insert version rec i.changes }

-- The characters that `safe_filename` replaces.
abbrev is_unsafe : ℕ → Bool
is_unsafe c =
    c == b'/'
    || c == b'\\'
    || c == b':'
    || c == b'*'
    || c == b'?'
    || c == b'"'
    || c == b'<'
    || c == b'>'
    || c == b'|'

-- `str::is_char_boundary`, negated, at a position inside the text: a continuation byte of UTF-8.
abbrev is_continuation_at : ℕ → Str → Bool
is_continuation_at n s = elim (get_elem? s n) [ none ↦ false | some c ↦ leb 128 c && leb c 191 ]

-- The last character boundary at or before a position.
unfoldable pub char_floor : ℕ → Str → ℕ
char_floor zero s = 0
char_floor (suc n) s =
    let lower = char_floor n s in if is_continuation_at (suc n) s then lower else suc n

unfoldable pub safe_filename : Str → Str
unfolding char_floor
safe_filename s =
    let out = map (λ c. if is_unsafe c then b'-' else c) s in
    if ltb 200 (length out) then take (char_floor 200 out) out else out

abbrev pub write_at : Write → Str → Email → Disk → Disk
write_at written name m d = record d { messages = Map.insert name (some m) d.messages }
write_at refused name m d = d
write_at damaged name m d = record d { messages = Map.insert name none d.messages }

-- A write to the file of a message.
unfoldable pub write_message : Io → Email → Disk → Disk
unfolding safe_filename
write_message io msg d = write_at io.message_file (safe_filename msg.id) msg d
