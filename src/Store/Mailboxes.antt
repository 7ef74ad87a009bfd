-- ===== src/Store/Mailboxes.antt =====
-- The rest of the store: mailboxes, identities, blobs, submissions, vacation, and `open`.
use jmapsmtp.Prelude.{
  ℕ, Bool, true, false, Option, none, some, List, [], ◌∷◌, ◌++◌, Str, codes, if◌then◌else◌,
  is_empty, keep_if, not, ◌&&◌, ◌+◌, ◌%◌, ◌^◌,
}
use jmapsmtp.Words.{succ_i64}
use jmapsmtp.Map
use jmapsmtp.Map.{Map}
use jmapsmtp.Map.Set
use jmapsmtp.Map.Set.{Set}
use jmapsmtp.Keys.{nat_ord, text_ord}
use jmapsmtp.JmapTypes.{Email, Mailbox, JsonObject}
use jmapsmtp.Store.{
  Store, Inner, Disk, PersistedState, MailboxChangeRecord, Io, write_value, succeeded, save_state,
  empty_inner,
}

unfoldable pub mailboxes : Store → List Mailbox
mailboxes s = elim s.disk.mailboxes [ none ↦ [] | some mbs ↦ mbs ]

unfoldable pub put_mailboxes : Io → List Mailbox → Store → Store × Bool
put_mailboxes io mbs s = (
  record s {
    disk = record s.disk { mailboxes = write_value io.mailboxes_file mbs s.disk.mailboxes };
  },
  succeeded io.mailboxes_file,
)

unfoldable pub bump_mailbox_state : Io → MailboxChangeRecord → Store → Store
unfolding save_state
bump_mailbox_state io rec s =
    let version = succ_i64 s.mailbox_state in
    save_state io (record s {
      inner = record s.inner {
        mailbox_state = version;
        mailbox_changes = Map.insert version rec s.mailbox_changes;
      };
    })

-- The ids of a list of mailboxes, as a set.
unfoldable pub mailbox_ids : List Mailbox → Set Str
mailbox_ids [] = []
mailbox_ids (mb ∷ mbs) = Set.insert mb.id (mailbox_ids mbs)

-- `BTreeSet::difference`.
unfoldable pub difference : Set Str → Set Str → Set Str
difference a b = keep_if (λ id. not (Set.contains id b)) a

-- The write of a list that differs, and the record of the difference.
unfoldable pub write_difference : Io → List Mailbox → Set Str → Set Str → Store → Store × Bool
unfolding put_mailboxes bump_mailbox_state
write_difference io mbs created destroyed s =
    let (s', done) = put_mailboxes io mbs s in
    let rec : MailboxChangeRecord = record {
      created = created;
      updated = [];
      destroyed = destroyed;
    } in
    if done then (bump_mailbox_state io rec s', true) else (s', false)

unfoldable pub sync_mailboxes : Io → List Mailbox → Store → Store × Bool
sync_mailboxes io mbs s =
    let existing = mailbox_ids (mailboxes s) in
    let incoming = mailbox_ids mbs in
    let created = difference incoming existing in
    let destroyed = difference existing incoming in
    if is_empty created && is_empty destroyed
    then (s, true)
    else write_difference io mbs created destroyed s

unfoldable pub replace_identities : Io → List JsonObject → ℕ → Store → Store
replace_identities io ids bumps s = record s {
  inner = record s.inner { identities = ids; identity_state = (s.identity_state + bumps) % 2 ^ 64 };
  disk = record s.disk { identities = write_value io.identities_file ids s.disk.identities };
}

unfoldable pub set_identities : Io → List JsonObject → Store → Store
set_identities io ids s = record s {
  inner = record s.inner { identities = ids };
  disk = record s.disk { identities = write_value io.identities_file ids s.disk.identities };
}

unfoldable pub set_vacation : Option JsonObject → Store → Store
set_vacation v s = record s { inner = record s.inner { vacation = v } }

-- The hash is that of the sha2 crate, in hexadecimal.
module _ (sha256_hex : Str → Str) where
  unfoldable pub put_blob : Str → Store → Store × Str
  put_blob bytes s =
      let id = codes "blob-" ++ sha256_hex bytes in
      (record s { inner = record s.inner { blobs = Map.insert id bytes s.blobs } }, id)

unfoldable pub get_blob : Str → Store → Option Str
get_blob id s = Map.lookup id s.blobs

unfoldable pub add_submission : Io → JsonObject → Store → Store
unfolding save_state
add_submission io sub s = save_state io (record s {
  inner = record s.inner {
    submissions = s.submissions ++ sub ∷ [];
    submission_state = succ_i64 s.submission_state;
  };
})

-- `load_state`: a missing or corrupt `delta.json` leaves the counters at zero.
unfoldable pub load_state : Option PersistedState → Inner → Inner
load_state none i = i
load_state (some ps) i = record i {
  state = ps.state;
  changes = ps.changes;
  mailbox_state = ps.mailbox_state;
  mailbox_changes = ps.mailbox_changes;
  submissions = if is_empty ps.submissions then i.submissions else ps.submissions;
  submission_state = ps.submission_state;
}

-- The messages of the files that parse and have an id, in the order of the directory.
unfoldable pub load_messages : List (Option Email) → Map Str Email → Map Str Email
load_messages [] msgs = msgs
load_messages (none ∷ files) msgs = load_messages files msgs
load_messages (some m ∷ files) msgs =
    load_messages files (if is_empty m.id then msgs else Map.insert m.id m msgs)

unfoldable pub load_identities : Option (List JsonObject) → Inner → Inner
load_identities none i = i
load_identities (some ids) i = record i { identities = ids }

-- `Store::open`, on a directory that can be read.
unfoldable pub open_store : Disk → Store
unfolding load_state load_messages load_identities
open_store d = record {
  inner =
      load_identities d.identities (
        load_state d.delta
          (record empty_inner { msgs = load_messages (Map.values d.messages) [] }));
  disk = d;
}
