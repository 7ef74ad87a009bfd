-- ===== src/Store/Messages.antt =====
-- The operations on messages: `put`, `get`, `delete`, `purge`, `patch_keywords`, `patch_email`, and
-- the pending drafts.
use jmapsmtp.Prelude.{
  ℕ, Bool, true, false, Option, none, some, List, [], ◌∷◌, Str, codes, if◌then◌else◌, is_empty,
  strip_prefix, length,
}
use jmapsmtp.Map
use jmapsmtp.Map.{Map}
use jmapsmtp.Keys.{text_ord}
use jmapsmtp.JmapTypes.{Email, Value, null, bool, JsonObject}
use jmapsmtp.Store.{
  Store, ChangeRecord, Io, save_state, advance, safe_filename, write_message, write_at, succeeded,
}
use jmapsmtp.Store.Threads.{resolve_thread_id}

abbrev pub added_record : Str → ChangeRecord
added_record id = record { added = id ∷ []; updated = []; removed = [] }

abbrev pub updated_record : Str → ChangeRecord
updated_record id = record { added = []; updated = id ∷ []; removed = [] }

abbrev pub removed_record : List Str → ChangeRecord
removed_record ids = record { added = []; updated = []; removed = ids }

-- The message as it is stored: with a thread.
unfoldable pub with_thread : Email → Store → Email
with_thread msg s =
    if is_empty msg.thread_id then record msg { thread_id = resolve_thread_id msg s } else msg

-- What `put` does in memory once the file is written, and the save of the state.
unfoldable pub index_message : Io → Email → Store → Store
unfolding save_state advance
index_message io msg s =
    let i = s.inner in
    let i' = record i { msgs = Map.insert msg.id msg i.msgs } in
    if Map.contains_key msg.id i.msgs
    then record s { inner = i' }
    else save_state io (record s { inner = advance (added_record msg.id) i' })

-- `put`; `false` stands for the error of the failed write.
unfoldable pub put : Io → Email → Store → Store × Bool
unfolding with_thread index_message write_message
put io msg s =
    let m = with_thread msg s in
    let s' = record s { disk = write_message io m s.disk } in
    if succeeded io.message_file then (index_message io m s', true) else (s', false)

unfoldable pub get : Str → Store → Option Email
get id s = elim (Map.lookup id s.msgs) [ some m ↦ some m | none ↦ Map.lookup id s.pending ]

unfoldable pub delete : Io → Str → Store → Store
unfolding save_state advance
delete io id s =
    let i = s.inner in
    let i' = record i { msgs = Map.remove id i.msgs } in
    let s' =
      if Map.contains_key id i.msgs
      then save_state io (record s { inner = advance (removed_record (id ∷ [])) i' })
      else s in
    record s' {
      disk = record s'.disk { messages = Map.remove (safe_filename id) s'.disk.messages };
    }

-- `purge` returns how many messages there were.
unfoldable pub purge : Io → Store → Store × ℕ
unfolding save_state advance
purge io s =
    let ids = Map.keys s.msgs in
    let i = record s.inner { msgs = [] } in
    let s' =
      if is_empty ids
      then record s { inner = i }
      else save_state io (record s { inner = advance (removed_record ids) i }) in
    (record s' { disk = record s'.disk { messages = [] } }, length ids)

-- One entry of a patch. Only `patch_email` reads a null in keywords/, and mailboxIds/ at all.
abbrev patch_keyword : Bool → Str → Value → Email → Email
patch_keyword too kw (bool b) m = record m { keywords = Map.insert kw b m.keywords }
patch_keyword too kw null m = if too then record m { keywords = Map.remove kw m.keywords } else m
patch_keyword too kw _ m = m

abbrev patch_mailbox : Str → Value → Email → Email
patch_mailbox mb (bool b) m = record m { mailbox_ids = Map.insert mb b m.mailbox_ids }
patch_mailbox mb null m = record m { mailbox_ids = Map.remove mb m.mailbox_ids }
patch_mailbox mb _ m = m

unfoldable pub patch_entry : Bool → Str → Value → Email → Email
patch_entry too k v m = elim (strip_prefix (codes "keywords/") k) [
  | some kw ↦ patch_keyword too kw v m
  | none ↦
      if too
      then elim (strip_prefix (codes "mailboxIds/") k) [ some mb ↦ patch_mailbox mb v m | none ↦ m ]
      else m
]

unfoldable pub apply_patch : Bool → JsonObject → Email → Email
unfolding patch_entry
apply_patch too [] m = m
apply_patch too ((k, v) ∷ patch) m = apply_patch too patch (patch_entry too k v m)

unfoldable pub patch_stored : Io → Bool → Str → Email → Store → Store × Bool
unfolding save_state advance safe_filename
patch_stored io too id m s =
    let i = record s.inner { msgs = Map.insert id m s.msgs } in
    let s' = save_state io (record s { inner = advance (updated_record id) i }) in
    (
      record s' { disk = write_at io.message_file (safe_filename id) m s'.disk },
      succeeded io.message_file,
    )

-- An unknown id is no error.
unfoldable pub patch : Io → Bool → Str → JsonObject → Store → Store × Bool
unfolding apply_patch patch_stored
patch io too id p s = elim (Map.lookup id s.msgs) [
  | none ↦ (s, true)
  | some m ↦ patch_stored io too id (apply_patch too p m) s
]

unfoldable pub put_pending : Email → Store → Store
put_pending msg s = record s {
  inner = record s.inner { pending = Map.insert msg.id msg s.pending };
}

unfoldable pub take_pending : Str → Store → Store × Option Email
take_pending id s = (
  record s { inner = record s.inner { pending = Map.remove id s.pending } },
  Map.lookup id s.pending,
)
