-- ===== src/Store/Effects.antt =====
-- What the operations on messages do to the messages.
use jmapsmtp.Prelude.{
  Bool, false, Option, none, some, List, [], ◌∷◌, ◌++◌, ◌≡◌, ◌∙◌, refl, arith, if◌then◌else◌,
  is_empty, ◌&&◌, not, Option-cases, inl, inr, Str,
}
use jmapsmtp.Map
use jmapsmtp.Map.{Map, lookup-insert, lookup-remove}
use jmapsmtp.Words.{succ_i64}
use jmapsmtp.Keys.{nat_ord, text_ord, same}
use jmapsmtp.JmapTypes.{Email, JsonObject, Mailbox, Value}
use jmapsmtp.Store.{Store, Io, succeeded, save_state, advance, write_message, empty_store}
use jmapsmtp.Store.Threads.{
  resolve_thread_id, chat_group, by_msg_id, parent_thread, or_own, or_group,
}
use jmapsmtp.Store.Messages.{
  get, put, with_thread, index_message, delete, purge, patch, patch_stored, apply_patch,
  patch_entry, put_pending, take_pending,
}
use jmapsmtp.Store.Mailboxes.{
  put_mailboxes, bump_mailbox_state, sync_mailboxes, write_difference, replace_identities,
  set_identities, set_vacation, add_submission,
}
use jmapsmtp.Store.History.{
  Op, put_op, delete_op, purge_op, patch_op, sync_mailboxes_op, apply, run,
}

lookup-index_message :
    (io : Io) (m : Email) (s : Store) (j : Str)
    → Map.lookup j (index_message io m s).msgs
      ≡ (if same j m.id then some m else Map.lookup j s.msgs)
unfolding index_message save_state advance
lookup-index_message io m s j = ground (arith, lookup-insert m.id j m s.msgs)

pending-index_message :
    (io : Io) (m : Email) (s : Store) → (index_message io m s).pending ≡ s.pending
unfolding index_message save_state advance
pending-index_message io m s = ground arith

state-index_message :
    (io : Io) (m : Email) (s : Store)
    → (index_message io m s).state
      ≡ (if Map.contains_key m.id s.msgs then s.state else succ_i64 s.state)
unfolding index_message save_state advance
state-index_message io m s = ground arith

id-with_thread : (m : Email) (s : Store) → (with_thread m s).id ≡ m.id
unfolding with_thread
id-with_thread m s = ground arith

-- A message that `put` accepts is what `get` returns for its id, with its thread resolved, and no
-- other id is touched; the change counter goes up if the id is new. When the write of the file
-- fails, `put` reports it, and neither the messages nor the counter change.
pub get-put :
    (io : Io) (m : Email) (s : Store) (j : Str)
    → ((put io m s).1 ≡ succeeded io.message_file)
      × (get j (put io m s).0
          ≡ (if succeeded io.message_file && same j m.id then some (with_thread m s) else get j s))
      × ((put io m s).0.state ≡ (
          if succeeded io.message_file && not (Map.contains_key m.id s.msgs)
          then succ_i64 s.state
          else s.state))
unfolding put get
get-put io m s j =
    let m' = with_thread m s in
    let s' = record s { disk = write_message io m' s.disk } in
    (
      ground arith,
      ground (
        arith,
        lookup-index_message io m' s' j,
        pending-index_message io m' s',
        id-with_thread m s,
      ),
      ground (arith, state-index_message io m' s', id-with_thread m s),
    )

-- Every stored message has a thread.
abbrev pub HasThreads : Store → Type 0
HasThreads s = (id : Str) (m : Email) → Map.lookup id s.msgs ≡ some m → is_empty m.thread_id ≡ false

parent_thread-ne-nil :
    (index : Map Str Str) (rs : List Str) (t : Str)
    → parent_thread index rs ≡ some t
    → is_empty t ≡ false
unfolding parent_thread
parent_thread-ne-nil index [] t h = cc
parent_thread-ne-nil index (r ∷ rs) t h = ground (arith, parent_thread-ne-nil index rs t)

or_own-ne-nil :
    (m : Email) (o : Option Str)
    → ((t : Str) → o ≡ some t → is_empty t ≡ false)
    → is_empty (or_own m o) ≡ false
or_own-ne-nil m none h = ground arith
or_own-ne-nil m (some t) h = h t refl

or_group-ne-nil :
    (o : Option Str) (thread : Str) → is_empty thread ≡ false → is_empty (or_group o thread) ≡ false
or_group-ne-nil none thread h = h
or_group-ne-nil (some g) thread h = refl

resolve_thread_id-ne-nil : (m : Email) (s : Store) → is_empty (resolve_thread_id m s) ≡ false
unfolding resolve_thread_id
resolve_thread_id-ne-nil m s =
    let refs = m.in_reply_to ++ m.references in
    let parent = parent_thread (by_msg_id s) refs in
    or_group-ne-nil (chat_group m.headers) (or_own m parent)
      (or_own-ne-nil m parent (parent_thread-ne-nil (by_msg_id s) refs))

with_thread-ne-nil : (m : Email) (s : Store) → is_empty (with_thread m s).thread_id ≡ false
unfolding with_thread
with_thread-ne-nil m s = ground (arith, resolve_thread_id-ne-nil m s)

thread_id-patch_entry :
    (too : Bool) (k : Str) (v : Value) (m : Email) → (patch_entry too k v m).thread_id ≡ m.thread_id
unfolding patch_entry
thread_id-patch_entry too k v m = ground arith

thread_id-apply_patch :
    (too : Bool) (p : JsonObject) (m : Email) → (apply_patch too p m).thread_id ≡ m.thread_id
unfolding apply_patch
thread_id-apply_patch too [] m = refl
thread_id-apply_patch too ((k, v) ∷ p) m =
    thread_id-apply_patch too p (patch_entry too k v m) ∙ thread_id-patch_entry too k v m

put-HasThreads : (io : Io) (m : Email) (s : Store) → HasThreads s → HasThreads (put io m s).0
unfolding put
put-HasThreads io m s h id x e =
    let m' = with_thread m s in
    let s' = record s { disk = write_message io m' s.disk } in
    ground (arith, lookup-index_message io m' s' id, with_thread-ne-nil m s, h id x)

delete-HasThreads : (io : Io) (k : Str) (s : Store) → HasThreads s → HasThreads (delete io k s)
unfolding delete save_state advance
delete-HasThreads io k s h id x e = ground (arith, lookup-remove k id s.msgs, h id x)

purge-HasThreads : (io : Io) (s : Store) → HasThreads s → HasThreads (purge io s).0
unfolding purge save_state advance Map.lookup
purge-HasThreads io s h id x e = ground arith

patch_stored-HasThreads :
    (io : Io) (too : Bool) (k : Str) (m : Email) (s : Store)
    → is_empty m.thread_id ≡ false
    → HasThreads s
    → HasThreads (patch_stored io too k m s).0
unfolding patch_stored save_state advance
patch_stored-HasThreads io too k m s t h id x e =
    ground (arith, lookup-insert k id m s.msgs, h id x)

patch-HasThreads :
    (io : Io) (too : Bool) (k : Str) (p : JsonObject) (s : Store)
    → HasThreads s
    → HasThreads (patch io too k p s).0
unfolding patch
patch-HasThreads io too k p s h = elim (Option-cases (Map.lookup k s.msgs)) [
  | inl gone ↦ rw (gone, patch) h
  | inr (m, there) ↦
      rw (there, patch)
        (patch_stored-HasThreads io too k (apply_patch too p m) s
          (rw (thread_id-apply_patch too p m) (h k m there)) h)
]

msgs-sync_mailboxes :
    (io : Io) (mbs : List Mailbox) (s : Store) → (sync_mailboxes io mbs s).0.msgs ≡ s.msgs
unfolding sync_mailboxes write_difference put_mailboxes bump_mailbox_state save_state
msgs-sync_mailboxes io mbs s = ground arith

apply-HasThreads : (op : Op) (s : Store) → HasThreads s → HasThreads (apply op s)
unfolding apply save_state put_pending take_pending put_mailboxes bump_mailbox_state
    replace_identities set_identities set_vacation add_submission
apply-HasThreads (put_op io m) s h = put-HasThreads io m s h
apply-HasThreads (delete_op io id) s h = delete-HasThreads io id s h
apply-HasThreads (purge_op io) s h = purge-HasThreads io s h
apply-HasThreads (patch_op io too id p) s h = patch-HasThreads io too id p s h
apply-HasThreads (sync_mailboxes_op io mbs) s h = rw (msgs-sync_mailboxes io mbs s) h
apply-HasThreads _ s h = h

run-HasThreads : (ops : List Op) (s : Store) → HasThreads s → HasThreads (run ops s)
unfolding run
run-HasThreads [] s h = h
run-HasThreads (op ∷ ops) s h = run-HasThreads ops (apply op s) (apply-HasThreads op s h)

-- Whatever operations run on an empty store, every stored message has a thread: the one that it
-- came with, or one that was resolved for it. A patch leaves it alone.
pub thread-run :
    (ops : List Op) (id : Str) (m : Email)
    → Map.lookup id (run ops empty_store).msgs ≡ some m
    → is_empty m.thread_id ≡ false
unfolding Map.lookup
thread-run ops = run-HasThreads ops empty_store (λ id m e. absurd (ground arith))
