-- ===== src/Store/Durable.antt =====
-- What a restart keeps: the counters, the change logs and the submissions.
use jmapsmtp.Prelude.{
  Bool, Option, none, some, List, [], ◌∷◌, ◌≡◌, refl, arith, if◌then◌else◌, is_empty, Bool-cases,
  Option-cases, inl, inr, All, Str,
}
use jmapsmtp.Map
use jmapsmtp.Map.{Map}
use jmapsmtp.Map.Set.{Set}
use jmapsmtp.Keys.{nat_ord, text_ord}
use jmapsmtp.JmapTypes.{JsonObject, Email, Mailbox}
use jmapsmtp.Store.{
  Store, Inner, Io, Write, written, refused, damaged, Disk, PersistedState, write_at, safe_filename,
  advance, empty_inner, succeeded, persisted, write_value, write_message,
}
use jmapsmtp.Store.Messages.{
  updated_record, apply_patch, with_thread, put, index_message, delete, purge, patch, patch_stored,
  put_pending, take_pending,
}
use jmapsmtp.Store.Mailboxes.{
  mailboxes, mailbox_ids, difference, put_mailboxes, bump_mailbox_state, sync_mailboxes,
  write_difference, replace_identities, set_identities, set_vacation, add_submission, load_state,
  load_identities, open_store,
}
use jmapsmtp.Store.History.{
  Op, put_op, delete_op, purge_op, patch_op, bump_mailbox_state_op, sync_mailboxes_op,
  add_submission_op, apply, run,
}

-- Two states agree on what `delta.json` keeps.
pub record SameLog (a b : Inner) : Type 0 where
  pub state : a.state ≡ b.state
  pub changes : a.changes ≡ b.changes
  pub mailbox_state : a.mailbox_state ≡ b.mailbox_state
  pub mailbox_changes : a.mailbox_changes ≡ b.mailbox_changes
  pub submissions : a.submissions ≡ b.submissions
  pub submission_state : a.submission_state ≡ b.submission_state

-- What `delta.json` holds is what is in memory.
abbrev pub IsSaved : Store → Type 0
IsSaved s = SameLog (load_state s.disk.delta empty_inner) s.inner

-- The operation can write `delta.json`.
abbrev pub CanSave : Op → Type 0
CanSave (put_op io m) = io.delta_file ≡ written
CanSave (delete_op io id) = io.delta_file ≡ written
CanSave (purge_op io) = io.delta_file ≡ written
CanSave (patch_op io too id p) = io.delta_file ≡ written
CanSave (bump_mailbox_state_op io rec) = io.delta_file ≡ written
CanSave (sync_mailboxes_op io mbs) = io.delta_file ≡ written
CanSave (add_submission_op io sub) = io.delta_file ≡ written
CanSave _ = Unit

loaded_submissions : (l : List JsonObject) → (if is_empty l then [] else l) ≡ l
loaded_submissions [] = refl
loaded_submissions (x ∷ l) = refl

-- The file after a write of the state `i`.
saved :
    (io : Io) (i : Inner) (old : Option PersistedState)
    → io.delta_file ≡ written
    → SameLog (load_state (write_value io.delta_file (persisted i) old) empty_inner) i
unfolding load_state persisted
saved io i old w = record {
  state = rw w;
  changes = rw w;
  mailbox_state = rw w;
  mailbox_changes = rw w;
  submissions = rw w (loaded_submissions i.submissions);
  submission_state = rw w;
}

delta-write_at :
    (w : Write) (name : Str) (m : Email) (d : Disk) → (write_at w name m d).delta ≡ d.delta
delta-write_at written name m d = refl
delta-write_at refused name m d = refl
delta-write_at damaged name m d = refl

delta-write_message : (io : Io) (m : Email) (d : Disk) → (write_message io m d).delta ≡ d.delta
unfolding write_message
delta-write_message io m d = delta-write_at io.message_file (safe_filename m.id) m d

module _ (io : Io) (s : Store) (w : io.delta_file ≡ written) (h : IsSaved s) where
  index_message-IsSaved : (m : Email) → IsSaved (index_message io m s)
  unfolding index_message
  index_message-IsSaved m = elim (Bool-cases (Map.contains_key m.id s.msgs)) [
    | inl old ↦ rw (old, index_message) (ground arith)
    | inr new ↦ rw (new, index_message) (saved io _ s.disk.delta w)
  ]

  delete-IsSaved : (id : Str) → IsSaved (delete io id s)
  unfolding delete
  delete-IsSaved id = elim (Bool-cases (Map.contains_key id s.msgs)) [
    | inl old ↦ rw (old, delete) (saved io _ s.disk.delta w)
    | inr gone ↦ rw (gone, delete) h
  ]

  purge-IsSaved : IsSaved (purge io s).0
  unfolding purge
  purge-IsSaved = elim (Bool-cases (is_empty (Map.keys s.msgs))) [
    | inl none_there ↦ rw (none_there, purge) (ground arith)
    | inr some_there ↦ rw (some_there, purge) (saved io _ s.disk.delta w)
  ]

  patch_stored-IsSaved :
      (too : Bool) (id : Str) (m : Email) → IsSaved (patch_stored io too id m s).0
  unfolding patch_stored
  patch_stored-IsSaved too id m =
      let i = record s.inner { msgs = Map.insert id m s.msgs } in
      rw (delta-write_at io.message_file (safe_filename id) m)
        (saved io (advance (updated_record id) i) s.disk.delta w)

  patch-IsSaved : (too : Bool) (id : Str) (p : JsonObject) → IsSaved (patch io too id p s).0
  unfolding patch
  patch-IsSaved too id p = elim (Option-cases (Map.lookup id s.msgs)) [
    | inl gone ↦ rw (gone, patch) h
    | inr (m, there) ↦ rw (there, patch) (patch_stored-IsSaved too id (apply_patch too p m))
  ]

  write_difference-IsSaved :
      (mbs : List Mailbox) (created destroyed : Set Str)
      → IsSaved (write_difference io mbs created destroyed s).0
  unfolding write_difference
  write_difference-IsSaved mbs created destroyed = elim (Bool-cases (succeeded io.mailboxes_file)) [
    | inl done ↦ rw (done, write_difference) (saved io _ s.disk.delta w)
    | inr failed ↦ rw (failed, write_difference) h
  ]

  sync_mailboxes-IsSaved : (mbs : List Mailbox) → IsSaved (sync_mailboxes io mbs s).0
  unfolding sync_mailboxes
  sync_mailboxes-IsSaved mbs =
      let existing = mailbox_ids (mailboxes s) in
      let incoming = mailbox_ids mbs in
      ground (
        arith,
        write_difference-IsSaved mbs (difference incoming existing) (difference existing incoming),
      )

put-IsSaved :
    (io : Io) (m : Email) (s : Store) → io.delta_file ≡ written → IsSaved s → IsSaved (put io m s).0
unfolding put
put-IsSaved io m s w h = elim (Bool-cases (succeeded io.message_file)) [
  | inl done ↦
      let m' = with_thread m s in
      let s' = record s { disk = write_message io m' s.disk } in
      rw (done, put) (index_message-IsSaved io s' w (rw (delta-write_message io m' s.disk) h) m')
  | inr failed ↦ rw (failed, put) (rw (delta-write_message io (with_thread m s) s.disk) h)
]

apply-IsSaved : (op : Op) (s : Store) → CanSave op → IsSaved s → IsSaved (apply op s)
unfolding apply bump_mailbox_state add_submission put_pending take_pending put_mailboxes
    replace_identities set_identities set_vacation
apply-IsSaved (put_op io m) s w h = put-IsSaved io m s w h
apply-IsSaved (delete_op io id) s w h = delete-IsSaved io s w h id
apply-IsSaved (purge_op io) s w h = purge-IsSaved io s w h
apply-IsSaved (patch_op io too id p) s w h = patch-IsSaved io s w h too id p
apply-IsSaved (bump_mailbox_state_op io rec) s w h = saved io _ s.disk.delta w
apply-IsSaved (sync_mailboxes_op io mbs) s w h = sync_mailboxes-IsSaved io s w h mbs
apply-IsSaved (add_submission_op io sub) s w h = saved io _ s.disk.delta w
apply-IsSaved _ s w h = ground arith

run-IsSaved : (ops : List Op) (s : Store) → All CanSave ops → IsSaved s → IsSaved (run ops s)
unfolding run
run-IsSaved [] s w h = h
run-IsSaved (op ∷ ops) s w h = run-IsSaved ops (apply op s) w.1 (apply-IsSaved op s w.0 h)

-- The messages and the identities of a directory do not touch the counters.
reopened :
    (ids : Option (List JsonObject)) (d : Option PersistedState) (msgs : Map Str Email) (j : Inner)
    → SameLog (load_state d empty_inner) j
    → SameLog (load_identities ids (load_state d (record empty_inner { msgs = msgs }))) j
unfolding load_state load_identities
reopened none none msgs j h = ground arith
reopened none (some ps) msgs j h = ground arith
reopened (some l) none msgs j h = ground arith
reopened (some l) (some ps) msgs j h = ground arith

-- A store that is opened again after any operations has the counters, the change logs and the
-- submissions that it had, as long as `delta.json` could be written.
pub open_store-run :
    (ops : List Op) (s : Store)
    → All CanSave ops
    → IsSaved s
    → SameLog (open_store (run ops s).disk).inner (run ops s).inner
unfolding open_store
open_store-run ops s w h =
    let t = run ops s in reopened t.disk.identities t.disk.delta _ t.inner (run-IsSaved ops s w h)
