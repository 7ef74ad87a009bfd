-- ===== src/Store/History.antt =====
-- Every operation of the store, what it does to the state counter and the change log, and runs of
-- operations.
use jmapsmtp.Prelude.{
  ℕ, Bool, true, false, Option, List, [], ◌∷◌, Str, ◌≡◌, refl, arith, is_empty, Bool-cases,
  Option-cases, inl, inr,
}
use jmapsmtp.Words.{succ_i64}
use jmapsmtp.Map
use jmapsmtp.Map.{Map, contains_key-insert, contains_key-remove, contains-keys}
use jmapsmtp.Map.Set
use jmapsmtp.Keys.{nat_ord, text_ord, same_iff}
use jmapsmtp.JmapTypes.{Email, Mailbox, JsonObject}
use jmapsmtp.Store.{
  Store, Disk, write_message, ChangeRecord, MailboxChangeRecord, Io, save_state, advance, succeeded,
}
use jmapsmtp.Store.Messages.{
  put, with_thread, index_message, delete, purge, patch, apply_patch, patch_stored, put_pending,
  take_pending, added_record, updated_record, removed_record,
}
use jmapsmtp.Store.Mailboxes.{
  put_mailboxes, bump_mailbox_state, sync_mailboxes, replace_identities, set_identities,
  set_vacation, add_submission, write_difference,
}
use jmapsmtp.Methods.Changes.{email_lists}
use jmapsmtp.Methods.Membership.{after}

-- Whether the store holds a message.
abbrev pub has : Store → Str → Bool
has s id = Map.contains_key id s.msgs

-- An operation that is no news for the clients, and one that adds a record to the log.
pub record Quiet (s t : Store) : Type 0 where
  pub state : t.state ≡ s.state
  pub changes : t.changes ≡ s.changes
  pub ids : (id : Str) → has t id ≡ has s id

pub record Recorded (rec : ChangeRecord) (s t : Store) : Type 0 where
  pub state : t.state ≡ succ_i64 s.state
  pub changes : t.changes ≡ Map.insert (succ_i64 s.state) rec s.changes
  pub ids : (id : Str) → has t id ≡ after email_lists rec id (has s id)

pub data Logged (s t : Store) : Type 0 where
  quiet : Quiet s t → Logged s t
  recorded : (rec : ChangeRecord) → Recorded rec s t → Logged s t

index_message-Logged : (io : Io) (m : Email) (s : Store) → Logged s (index_message io m s)
unfolding index_message save_state advance
index_message-Logged io m s = elim (Bool-cases (Map.contains_key m.id s.msgs)) [
  | inl old ↦ quiet (record {
    state = rw (old, index_message);
    changes = rw (old, index_message);
    ids = λ id. ground (arith, old, contains_key-insert m.id id m s.msgs, same_iff id m.id);
  })
  | inr new ↦ recorded (added_record m.id) (record {
    state = rw (new, index_message);
    changes = rw (new, index_message);
    ids = λ id. unfold Set.contains in ground (arith, new, contains_key-insert m.id id m s.msgs);
  })
]

-- What stands on disk is no matter here.
Logged-with_disk :
    (d e : Disk) (s t : Store) → Logged (record s { disk = d }) t → Logged s (record t { disk = e })
Logged-with_disk d e s t (quiet q) =
    quiet (record { state = q.state; changes = q.changes; ids = q.ids })
Logged-with_disk d e s t (recorded rec q) =
    recorded rec (record { state = q.state; changes = q.changes; ids = q.ids })

put-Logged : (io : Io) (m : Email) (s : Store) → Logged s (put io m s).0
unfolding put
put-Logged io m s = elim (Bool-cases (succeeded io.message_file)) [
  | inl done ↦
      let m' = with_thread m s in
      let s' = record s { disk = write_message io m' s.disk } in
      let t = index_message io m' s' in
      rw (done, put) (Logged-with_disk s'.disk t.disk s t (index_message-Logged io m' s'))
  | inr failed ↦ quiet (record {
    state = rw (failed, put);
    changes = rw (failed, put);
    ids = λ id. rw (failed, put);
  })
]

delete-Logged : (io : Io) (id : Str) (s : Store) → Logged s (delete io id s)
unfolding delete save_state advance
delete-Logged io k s = elim (Bool-cases (Map.contains_key k s.msgs)) [
  | inl old ↦ recorded (removed_record (k ∷ [])) (record {
    state = rw (old, delete);
    changes = rw (old, delete);
    ids = λ id. unfold Set.contains in ground (arith, old, contains_key-remove k id s.msgs);
  })
  | inr gone ↦ quiet (record {
    state = rw (gone, delete);
    changes = rw (gone, delete);
    ids = λ id. rw (gone, delete);
  })
]

keys-is_empty :
    (m : Map Str Email) (id : Str) → is_empty (Map.keys m) ≡ true → Map.contains_key id m ≡ false
unfolding Map.keys Map.contains_key Map.lookup
keys-is_empty [] id h = refl
keys-is_empty ((k, v) ∷ m) id h = cc

nothing_left : (id : Str) → Map.contains_key {V = Email} id [] ≡ false
unfolding Map.contains_key Map.lookup
nothing_left id = refl

purge-Logged : (io : Io) (s : Store) → Logged s (purge io s).0
unfolding purge save_state advance
purge-Logged io s = elim (Bool-cases (is_empty (Map.keys s.msgs))) [
  | inl none_there ↦ quiet (record {
    state = rw (none_there, purge);
    changes = rw (none_there, purge);
    ids = λ id. ground (arith, none_there, keys-is_empty s.msgs id none_there, nothing_left id);
  })
  | inr some_there ↦ recorded (removed_record (Map.keys s.msgs)) (record {
    state = rw (some_there, purge);
    changes = rw (some_there, purge);
    ids = λ id.
        unfold Set.contains in ground (arith, some_there, contains-keys id s.msgs, nothing_left id);
  })
]

patch_stored-Logged :
    (io : Io) (too : Bool) (k : Str) (m : Email) (s : Store)
    → has s k ≡ true
    → Logged s (patch_stored io too k m s).0
unfolding patch_stored save_state advance
patch_stored-Logged io too k m s there = recorded (updated_record k) (record {
  state = refl;
  changes = refl;
  ids = λ id.
      unfold Set.contains in
      ground (arith, there, contains_key-insert k id m s.msgs, same_iff id k);
})

patch-Logged :
    (io : Io) (too : Bool) (k : Str) (p : JsonObject) (s : Store) → Logged s (patch io too k p s).0
unfolding patch
patch-Logged io too k p s = elim (Option-cases (Map.lookup k s.msgs)) [
  | inl gone ↦ rw (gone, patch) (quiet (record { state = refl; changes = refl; ids = λ id. refl }))
  | inr (m, there) ↦
      rw (there, patch)
        (patch_stored-Logged io too k (apply_patch too p m) s
          (unfold Map.contains_key in ground (arith, there)))
]

-- One call of an operation that changes the store.
pub data Op : Type 0 where
  put_op : Io → Email → Op
  delete_op : Io → Str → Op
  purge_op : Io → Op
  patch_op : Io → Bool → Str → JsonObject → Op
  put_pending_op : Email → Op
  take_pending_op : Str → Op
  put_mailboxes_op : Io → List Mailbox → Op
  bump_mailbox_state_op : Io → MailboxChangeRecord → Op
  sync_mailboxes_op : Io → List Mailbox → Op
  replace_identities_op : Io → List JsonObject → ℕ → Op
  set_identities_op : Io → List JsonObject → Op
  set_vacation_op : Option JsonObject → Op
  add_submission_op : Io → JsonObject → Op

unfoldable pub apply : Op → Store → Store
apply (put_op io m) s = (put io m s).0
apply (delete_op io id) s = delete io id s
apply (purge_op io) s = (purge io s).0
apply (patch_op io too id p) s = (patch io too id p s).0
apply (put_pending_op m) s = put_pending m s
apply (take_pending_op id) s = (take_pending id s).0
apply (put_mailboxes_op io mbs) s = (put_mailboxes io mbs s).0
apply (bump_mailbox_state_op io rec) s = bump_mailbox_state io rec s
apply (sync_mailboxes_op io mbs) s = (sync_mailboxes io mbs s).0
apply (replace_identities_op io ids n) s = replace_identities io ids n s
apply (set_identities_op io ids) s = set_identities io ids s
apply (set_vacation_op v) s = set_vacation v s
apply (add_submission_op io sub) s = add_submission io sub s

unfoldable pub run : List Op → Store → Store
unfolding apply
run [] s = s
run (op ∷ ops) s = run ops (apply op s)

sync_mailboxes-Logged :
    (io : Io) (mbs : List Mailbox) (s : Store) → Logged s (sync_mailboxes io mbs s).0
unfolding sync_mailboxes write_difference put_mailboxes bump_mailbox_state save_state
sync_mailboxes-Logged io mbs s =
    quiet (record { state = ground arith; changes = ground arith; ids = λ id. ground arith })

-- Every operation is quiet or adds one record to the log.
pub apply-Logged : (op : Op) (s : Store) → Logged s (apply op s)
unfolding apply save_state put_pending take_pending put_mailboxes bump_mailbox_state
    replace_identities set_identities set_vacation add_submission
apply-Logged (put_op io m) s = put-Logged io m s
apply-Logged (delete_op io id) s = delete-Logged io id s
apply-Logged (purge_op io) s = purge-Logged io s
apply-Logged (patch_op io too id p) s = patch-Logged io too id p s
apply-Logged (sync_mailboxes_op io mbs) s = sync_mailboxes-Logged io mbs s
apply-Logged _ s = quiet (record { state = refl; changes = refl; ids = λ id. refl })
