-- ===== src/Methods/Changes.antt =====
-- The `changes` and `queryChanges` methods: crates/jmapserver/src/methods/email.rs, mailbox.rs,
-- thread.rs and submission.rs. (`store.state().parse().unwrap_or(0)` reads back the print of an
-- `i64`, and is that number.)
use jmapsmtp.Prelude.{
  ℕ, zero, suc, ◌+◌, ◌-◌, Bool, false, Option, none, some, List, [], ◌∷◌, ◌++◌, Str, if◌then◌else◌,
  is_empty,
}
use jmapsmtp.Result.{ok, err, ◌>>=◌}
use jmapsmtp.Words.{ltb_i64}
use jmapsmtp.Decimal.{print_i64}
use jmapsmtp.Keys.{nat_ord, text_ord}
use jmapsmtp.Map
use jmapsmtp.Map.{Map}
use jmapsmtp.Map.Set
use jmapsmtp.Map.Set.{Set}
use jmapsmtp.Store.{Store, ChangeRecord, MailboxChangeRecord}
use jmapsmtp.Store.Messages.{get}
use jmapsmtp.Methods.{cannot_calculate_changes, MethodResult, parse_since}
use jmapsmtp.Methods.Fold.{ChangeSets, Lists, fold_changes}

abbrev pub email_lists : Lists ChangeRecord
email_lists = record {
  added = λ rec. rec.added;
  updated = λ rec. rec.updated;
  removed = λ rec. rec.removed;
}

abbrev pub mailbox_lists : Lists MailboxChangeRecord
mailbox_lists = record {
  added = λ rec. rec.created;
  updated = λ rec. rec.updated;
  removed = λ rec. rec.destroyed;
}

-- `ok_or(MethodError::CannotCalculateChanges)`.
abbrev pub or_cannot : {A : Type 0} → Option A → MethodResult A
or_cannot none = err cannot_calculate_changes
or_cannot (some a) = ok a

-- The version that a client names, if the server has reached it.
unfoldable pub since_version : Str → ℕ → MethodResult ℕ
unfolding parse_since ltb_i64
since_version since_state cur = do
  since ← parse_since since_state
  if ltb_i64 cur since then err cannot_calculate_changes else ok since

pub record ChangesResponse : Type 0 where
  pub account_id : Str
  pub old_state : Str
  pub new_state : Str
  pub has_more_changes : Bool
  pub created : Set Str
  pub updated : Set Str
  pub destroyed : Set Str

abbrev pub changes_response : Str → Str → ℕ → ChangeSets → ChangesResponse
changes_response account_id since_state cur sets = record {
  account_id = account_id;
  old_state = since_state;
  new_state = print_i64 cur;
  has_more_changes = false;
  created = sets.created;
  updated = sets.updated;
  destroyed = sets.destroyed;
}

-- `Email/changes`
unfoldable pub email_changes : Store → Str → Str → MethodResult ChangesResponse
unfolding since_version fold_changes
email_changes store account_id since_state = do
  since ← since_version since_state store.state
  sets ← or_cannot (fold_changes email_lists store.changes since store.state)
  ok (changes_response account_id since_state store.state sets)

-- `Mailbox/changes`
unfoldable pub mailbox_changes : Store → Str → Str → MethodResult ChangesResponse
unfolding since_version fold_changes
mailbox_changes store account_id since_state = do
  since ← since_version since_state store.mailbox_state
  sets ← or_cannot (fold_changes mailbox_lists store.mailbox_changes since store.mailbox_state)
  ok (changes_response account_id since_state store.mailbox_state sets)

-- `EmailSubmission/changes`: there is no log, and the diff is empty.
unfoldable pub submission_changes : Store → Str → Str → MethodResult ChangesResponse
unfolding since_version
submission_changes store account_id since_state = do
  since ← since_version since_state store.submission_state
  ok (
      changes_response account_id since_state store.submission_state
        (record { created = []; updated = []; destroyed = [] }))

-- `queryChanges`: two sets, by the same loop without the updates.
pub record QuerySets : Type 0 where
  pub added : Set Str
  pub removed : Set Str

unfoldable pub query_added : List Str → QuerySets → QuerySets
query_added [] acc = acc
query_added (id ∷ ids) acc =
    query_added ids
      (record { added = Set.insert id acc.added; removed = Set.remove id acc.removed })

unfoldable pub query_removed : List Str → QuerySets → QuerySets
query_removed [] acc = acc
query_removed (id ∷ ids) acc =
    query_removed ids
      (record { added = Set.remove id acc.added; removed = Set.insert id acc.removed })

module _ {R : Type 0} (l : Lists R) where
  unfoldable pub query_record : R → QuerySets → QuerySets
  unfolding query_added query_removed
  query_record rec acc = query_removed (l.removed rec) (query_added (l.added rec) acc)

  unfoldable pub query_versions : Map ℕ R → ℕ → ℕ → QuerySets → Option QuerySets
  unfolding query_record
  query_versions log v zero acc = some acc
  query_versions log v (suc n) acc = elim (Map.lookup v log) [
    | none ↦ none
    | some rec ↦ query_versions log (v + 1) n (query_record rec acc)
  ]

-- `enumerate`: the index is a counter over the set.
unfoldable pub enumerate : ℕ → List Str → List (Str × ℕ)
enumerate i [] = []
enumerate i (id ∷ ids) = (id, i) ∷ enumerate (i + 1) ids

pub record QueryChangesResponse : Type 0 where
  pub account_id : Str
  pub old_query_state : Str
  pub new_query_state : Str
  pub removed : Set Str
  pub added : List (Str × ℕ)

unfoldable pub email_query_changes : Store → Str → Str → MethodResult QueryChangesResponse
unfolding since_version query_versions enumerate
email_query_changes store account_id since_state = do
  since ← since_version since_state store.state
  sets ← or_cannot (
      query_versions email_lists store.changes (since + 1) (store.state - since)
        (record { added = []; removed = [] }))
  ok (record {
    account_id = account_id;
    old_query_state = since_state;
    new_query_state = print_i64 store.state;
    removed = sets.removed;
    added = enumerate 0 sets.added;
  })

unfoldable pub mailbox_query_changes : Store → Str → Str → MethodResult QueryChangesResponse
unfolding since_version query_versions enumerate
mailbox_query_changes store account_id since_state = do
  since ← since_version since_state store.mailbox_state
  sets ← or_cannot (
      query_versions mailbox_lists store.mailbox_changes (since + 1) (store.mailbox_state - since)
        (record { added = []; removed = [] }))
  ok (record {
    account_id = account_id;
    old_query_state = since_state;
    new_query_state = print_i64 store.mailbox_state;
    removed = sets.removed;
    added = enumerate 0 sets.added;
  })

-- `Thread/changes`: the ids that the window names, in whatever way, and then their threads.
unfoldable pub insert_all : List Str → Set Str → Set Str
insert_all [] acc = acc
insert_all (id ∷ ids) acc = insert_all ids (Set.insert id acc)

unfoldable pub changed_versions : Map ℕ ChangeRecord → ℕ → ℕ → Set Str → Option (Set Str)
unfolding insert_all
changed_versions log v zero acc = some acc
changed_versions log v (suc n) acc = elim (Map.lookup v log) [
  | none ↦ none
  | some rec ↦
      changed_versions log (v + 1) n (insert_all (rec.added ++ rec.updated ++ rec.removed) acc)
]

unfoldable pub threads_of : Store → List Str → Set Str → Set Str
unfolding get
threads_of store [] acc = acc
threads_of store (id ∷ ids) acc = elim (get id store) [
  | none ↦ threads_of store ids acc
  | some m ↦ threads_of store ids (if is_empty m.thread_id then acc else Set.insert m.thread_id acc)
]

unfoldable pub thread_changes : Store → Str → Str → MethodResult ChangesResponse
unfolding since_version changed_versions threads_of
thread_changes store account_id since_state = do
  since ← since_version since_state store.state
  changed ← or_cannot (changed_versions store.changes (since + 1) (store.state - since) [])
  ok (
      changes_response account_id since_state store.state
        (record { created = []; updated = threads_of store changed []; destroyed = [] }))
