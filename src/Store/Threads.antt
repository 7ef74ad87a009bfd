-- ===== src/Store/Threads.antt =====
-- `resolve_thread_id`: the thread that a message belongs to.
use jmapsmtp.Prelude.{
  Option, none, some, List, [], ◌∷◌, ◌++◌, Str, codes, ◌==◌, ◌||◌, ◌&&◌, not, if◌then◌else◌,
  is_empty, eq_ignore_ascii_case, trim_by,
}
use jmapsmtp.Map
use jmapsmtp.Map.{Map}
use jmapsmtp.Keys.{text_ord}
use jmapsmtp.JmapTypes.{Email, Header}
use jmapsmtp.Store.{Store}

-- `trim_matches(['<', '>'])`.
unfoldable pub trim_angles : Str → Str
unfolding trim_by
trim_angles = trim_by (λ c. c == b'<' || c == b'>')

-- The first header that names a chat group.
unfoldable pub chat_group : List Header → Option Str
unfolding eq_ignore_ascii_case
chat_group [] = none
chat_group (h ∷ hs) =
    if eq_ignore_ascii_case h.name (codes "Chat-Group-Id") && not (is_empty h.value)
    then some h.value
    else chat_group hs

-- Message-ID → thread id. A later message wins over an earlier one.
index_ids : Str → List Str → Map Str Str → Map Str Str
unfolding trim_angles
index_ids thread [] index = index
index_ids thread (mid ∷ mids) index =
    let k = trim_angles mid in
    index_ids thread mids (if is_empty k then index else Map.insert k thread index)

index_from : List Email → Map Str Str → Map Str Str
unfolding index_ids
index_from [] index = index
index_from (m ∷ ms) index = index_from ms (index_ids m.thread_id m.message_id index)

unfoldable pub by_msg_id : Store → Map Str Str
unfolding index_from
by_msg_id s = index_from (Map.values s.msgs) []

-- The thread of the first reference that is known and has one.
unfoldable pub parent_thread : Map Str Str → List Str → Option Str
unfolding trim_angles
parent_thread index [] = none
parent_thread index (r ∷ rs) = elim (Map.lookup (trim_angles r) index) [
  | none ↦ parent_thread index rs
  | some tid ↦ if is_empty tid then parent_thread index rs else some tid
]

-- A thread of its own, named after the Message-ID if there is one.
abbrev pub own_thread : Email → Str
own_thread msg = elim msg.message_id [
  | [] ↦ codes "thr-" ++ msg.id
  | mid ∷ _ ↦ codes "thr-" ++ (if is_empty mid then msg.id else mid)
]

abbrev pub or_own : Email → Option Str → Str
or_own msg none = own_thread msg
or_own msg (some tid) = tid

abbrev pub or_group : Option Str → Str → Str
or_group none thread = thread
or_group (some group) thread = codes "thr-group-" ++ group

unfoldable pub resolve_thread_id : Email → Store → Str
unfolding chat_group by_msg_id parent_thread
resolve_thread_id msg s =
    or_group (chat_group msg.headers)
      (or_own msg (parent_thread (by_msg_id s) (msg.in_reply_to ++ msg.references)))
