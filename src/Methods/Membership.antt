-- ===== src/Methods/Membership.antt =====
-- What the fold of a change log says of one id, and how the fold grows with the log.
use jmapsmtp.Prelude.{
  ℕ, zero, suc, ◌+◌, ◌≤◌, Bool, true, false, none, some, List, [], ◌∷◌, Str, ◌≡◌, refl, ap, ◌∙◌,
  if◌then◌else◌, arith, Option-cases, inl, inr,
}
use native.Mathlib.Nat.{add-zero}
use jmapsmtp.Keys.{nat_ord, text_ord}
use jmapsmtp.Map
use jmapsmtp.Map.{Map, lookup-insert_ne}
use jmapsmtp.Map.Set
use jmapsmtp.Map.Set.{Set, contains-insert, contains-remove}
use jmapsmtp.Methods.Fold.{
  ChangeSets, add_id, update_id, remove_id, fold_added, fold_updated, fold_removed, Lists,
  fold_record, fold_versions,
}

-- Whether an id is there after a record, by whether it was there before.
abbrev pub after : {R : Type 0} → Lists R → R → Str → Bool → Bool
after l rec id b =
    if Set.contains id (l.removed rec)
    then false
    else if Set.contains id (l.added rec)
    then true
    else b

-- Whether an id is there at the end of a window, by whether it was there at its start.
abbrev pub replayed : ChangeSets → Str → Bool → Bool
replayed acc id b =
    if Set.contains id acc.created then true else if Set.contains id acc.destroyed then false else b

created-fold_added :
    (j : Str) (ids : List Str) (acc : ChangeSets)
    → Set.contains j (fold_added ids acc).created
      ≡ (if Set.contains j ids then true else Set.contains j acc.created)
unfolding fold_added Set.contains
created-fold_added j [] acc = refl
created-fold_added j (id ∷ ids) acc =
    ground (arith, created-fold_added j ids (add_id id acc), contains-insert id j acc.created)

destroyed-fold_added :
    (j : Str) (ids : List Str) (acc : ChangeSets)
    → Set.contains j (fold_added ids acc).destroyed
      ≡ (if Set.contains j ids then false else Set.contains j acc.destroyed)
unfolding fold_added Set.contains
destroyed-fold_added j [] acc = refl
destroyed-fold_added j (id ∷ ids) acc =
    ground (arith, destroyed-fold_added j ids (add_id id acc), contains-remove id j acc.destroyed)

created-fold_updated :
    (ids : List Str) (acc : ChangeSets) → (fold_updated ids acc).created ≡ acc.created
unfolding fold_updated
created-fold_updated [] acc = refl
created-fold_updated (id ∷ ids) acc = ground (arith, created-fold_updated ids (update_id id acc))

destroyed-fold_updated :
    (ids : List Str) (acc : ChangeSets) → (fold_updated ids acc).destroyed ≡ acc.destroyed
unfolding fold_updated
destroyed-fold_updated [] acc = refl
destroyed-fold_updated (id ∷ ids) acc =
    ground (arith, destroyed-fold_updated ids (update_id id acc))

created-fold_removed :
    (j : Str) (ids : List Str) (acc : ChangeSets)
    → Set.contains j (fold_removed ids acc).created
      ≡ (if Set.contains j ids then false else Set.contains j acc.created)
unfolding fold_removed Set.contains
created-fold_removed j [] acc = refl
created-fold_removed j (id ∷ ids) acc =
    ground (arith, created-fold_removed j ids (remove_id id acc), contains-remove id j acc.created)

destroyed-fold_removed :
    (j : Str) (ids : List Str) (acc : ChangeSets)
    → Set.contains j (fold_removed ids acc).destroyed
      ≡ (if Set.contains j ids then true else Set.contains j acc.destroyed)
unfolding fold_removed Set.contains
destroyed-fold_removed j [] acc = refl
destroyed-fold_removed j (id ∷ ids) acc =
    ground
      (arith, destroyed-fold_removed j ids (remove_id id acc), contains-insert id j acc.destroyed)

module _ {R : Type 0} (l : Lists R) where
  created-fold_record :
      (rec : R) (j : Str) (acc : ChangeSets)
      → Set.contains j (fold_record l rec acc).created ≡ (
          if Set.contains j (l.removed rec)
          then false
          else if Set.contains j (l.added rec)
          then true
          else Set.contains j acc.created)
  unfolding fold_record
  created-fold_record rec j acc =
      let added = fold_added (l.added rec) acc in
      ground (
        arith,
        created-fold_removed j (l.removed rec) (fold_updated (l.updated rec) added),
        created-fold_updated (l.updated rec) added,
        created-fold_added j (l.added rec) acc,
      )

  destroyed-fold_record :
      (rec : R) (j : Str) (acc : ChangeSets)
      → Set.contains j (fold_record l rec acc).destroyed ≡ (
          if Set.contains j (l.removed rec)
          then true
          else if Set.contains j (l.added rec)
          then false
          else Set.contains j acc.destroyed)
  unfolding fold_record
  destroyed-fold_record rec j acc =
      let added = fold_added (l.added rec) acc in
      ground (
        arith,
        destroyed-fold_removed j (l.removed rec) (fold_updated (l.updated rec) added),
        destroyed-fold_updated (l.updated rec) added,
        destroyed-fold_added j (l.added rec) acc,
      )

  -- One more record in the fold is one more step of the replay.
  pub replayed-fold_record :
      (rec : R) (j : Str) (acc : ChangeSets) (b : Bool)
      → replayed (fold_record l rec acc) j b ≡ after l rec j (replayed acc j b)
  replayed-fold_record rec j acc b =
      ground (arith, created-fold_record rec j acc, destroyed-fold_record rec j acc)

  -- No id is both created and destroyed.
  pub fold_record-disjoint :
      (rec : R) (j : Str) (acc : ChangeSets)
      → (Set.contains j acc.created ≡ true → Set.contains j acc.destroyed ≡ false)
      → Set.contains j (fold_record l rec acc).created ≡ true
      → Set.contains j (fold_record l rec acc).destroyed ≡ false
  fold_record-disjoint rec j acc h c =
      ground (arith, created-fold_record rec j acc, destroyed-fold_record rec j acc)

  pub fold_versions-none :
      (log : Map ℕ R) (v n : ℕ) (acc : ChangeSets)
      → Map.lookup v log ≡ none
      → fold_versions l log v (suc n) acc ≡ none
  unfolding fold_versions
  fold_versions-none log v n acc e = rw (e, fold_versions)

  pub fold_versions-some :
      (log : Map ℕ R) (rec : R) (v n : ℕ) (acc : ChangeSets)
      → Map.lookup v log ≡ some rec
      → fold_versions l log v (suc n) acc ≡ fold_versions l log (v + 1) n (fold_record l rec acc)
  unfolding fold_versions
  fold_versions-some log rec v n acc e = rw (e, fold_versions)

  -- A fold does not read the versions behind its window.
  pub fold_versions-insert :
      (log : Map ℕ R) (k : ℕ) (rec : R) (v n : ℕ) (acc : ChangeSets)
      → v + n ≤ k
      → fold_versions l (Map.insert k rec log) v n acc ≡ fold_versions l log v n acc
  fold_versions-insert log k rec v zero acc h = unfold fold_versions in refl
  fold_versions-insert log k rec v (suc n) acc h =
      let log' = Map.insert k rec log in
      let same_here = lookup-insert_ne k v rec log (omega arith) in
      elim (Option-cases (Map.lookup v log)) [
        | inl e ↦
            rw (fold_versions-none log v n acc e, fold_versions-none log' v n acc (same_here ∙ e))
        | inr (r, e) ↦
            rw
              (
                fold_versions-some log r v n acc e,
                fold_versions-some log' r v n acc (same_here ∙ e),
              )
              (fold_versions-insert log k rec (v + 1) n (fold_record l r acc) (omega arith))
      ]

  -- The last version of a window, taken off.
  pub fold_versions-last :
      (log : Map ℕ R) (rec : R) (v n : ℕ) (acc mid : ChangeSets)
      → fold_versions l log v n acc ≡ some mid
      → Map.lookup (v + n) log ≡ some rec
      → fold_versions l log v (suc n) acc ≡ some (fold_record l rec mid)
  fold_versions-last log rec v zero acc mid h e =
      rw (fold_versions-some log rec v zero acc (rw add-zero at e))
        (unfold fold_versions in ground (arith, h))
  fold_versions-last log rec v (suc n) acc mid h e = elim (Option-cases (Map.lookup v log)) [
    | inl p ↦ cc (fold_versions-none log v n acc p)
    | inr (r, p) ↦ rw (fold_versions-some log r v (suc n) acc p) (
        fold_versions-last log rec (v + 1) n (fold_record l r acc) mid
          (rw (fold_versions-some log r v n acc p) at h)
          (ap (λ (k : ℕ). Map.lookup k log) (omega arith) ∙ e))
  ]
