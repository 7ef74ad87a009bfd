-- ===== src/Methods/Fold.antt =====
-- The fold of a change log into three sets: `fold_changes` of
-- crates/jmapserver/src/methods/email.rs, and the same loop in mailbox.rs.
use jmapsmtp.Prelude.{ℕ, zero, suc, ◌+◌, ◌-◌, Option, none, some, List, [], ◌∷◌, Str, if◌then◌else◌}
use jmapsmtp.Keys.{nat_ord, text_ord}
use jmapsmtp.Map
use jmapsmtp.Map.{Map}
use jmapsmtp.Map.Set
use jmapsmtp.Map.Set.{Set}

-- created, updated, destroyed
pub record ChangeSets : Type 0 where
  pub created : Set Str
  pub updated : Set Str
  pub destroyed : Set Str

abbrev pub no_changes : ChangeSets
no_changes = record { created = []; updated = []; destroyed = [] }

-- One id of a record.
abbrev pub add_id : Str → ChangeSets → ChangeSets
add_id id acc = record acc {
  created = Set.insert id acc.created;
  destroyed = Set.remove id acc.destroyed;
}

-- An update of what was created in the same window is part of the creation.
abbrev pub update_id : Str → ChangeSets → ChangeSets
update_id id acc =
    if Set.contains id acc.created then acc else record acc { updated = Set.insert id acc.updated }

abbrev pub remove_id : Str → ChangeSets → ChangeSets
remove_id id acc = record acc {
  created = Set.remove id acc.created;
  updated = Set.remove id acc.updated;
  destroyed = Set.insert id acc.destroyed;
}

-- The three loops over the ids of a record.
unfoldable pub fold_added : List Str → ChangeSets → ChangeSets
fold_added [] acc = acc
fold_added (id ∷ ids) acc = fold_added ids (add_id id acc)

unfoldable pub fold_updated : List Str → ChangeSets → ChangeSets
fold_updated [] acc = acc
fold_updated (id ∷ ids) acc = fold_updated ids (update_id id acc)

unfoldable pub fold_removed : List Str → ChangeSets → ChangeSets
fold_removed [] acc = acc
fold_removed (id ∷ ids) acc = fold_removed ids (remove_id id acc)

-- The three lists of ids in one record of a log.
pub record Lists (R : Type 0) : Type 0 where
  pub added : R → List Str
  pub updated : R → List Str
  pub removed : R → List Str

module _ {R : Type 0} (l : Lists R) where
  unfoldable pub fold_record : R → ChangeSets → ChangeSets
  unfolding fold_added fold_updated fold_removed
  fold_record rec acc =
      fold_removed (l.removed rec) (fold_updated (l.updated rec) (fold_added (l.added rec) acc))

  -- `n` versions of the log from `v` on. A version with no record ends the loop: `none`.
  unfoldable pub fold_versions : Map ℕ R → ℕ → ℕ → ChangeSets → Option ChangeSets
  unfolding fold_record
  fold_versions log v zero acc = some acc
  fold_versions log v (suc n) acc = elim (Map.lookup v log) [
    | none ↦ none
    | some rec ↦ fold_versions log (v + 1) n (fold_record rec acc)
  ]

  -- The loop over `(since + 1)..=cur`.
  unfoldable pub fold_changes : Map ℕ R → ℕ → ℕ → Option ChangeSets
  unfolding fold_versions
  fold_changes log since cur = fold_versions log (since + 1) (cur - since) no_changes
