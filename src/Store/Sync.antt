-- ===== src/Store/Sync.antt =====
-- A client that follows `Email/changes` has the ids that the store has.
use jmapsmtp.Prelude.{
  ℕ, suc, ◌+◌, ◌-◌, ◌≤◌, ◌<◌, ◌^◌, true, false, some, List, [], ◌∷◌, Str, ◌≡◌, refl, ap, ◌∙◌, ◌&&◌,
  arith, length, sym,
}
use jmapsmtp.Words.{succ_i64, succ_i64_lem, ltb_i64_lem}
use jmapsmtp.Map
use jmapsmtp.Map.{Map, lookup-insert_self, lookup-insert}
use jmapsmtp.Map.Set
use jmapsmtp.Keys.{nat_ord, text_ord}
use jmapsmtp.Store.{Store, ChangeRecord}
use jmapsmtp.Store.History.{
  has, Quiet, Recorded, Logged, quiet, recorded, Op, apply, run, apply-Logged,
}
use jmapsmtp.Methods.Fold.{ChangeSets, no_changes, fold_versions, fold_record, fold_changes}
use jmapsmtp.Result.{ok}
use jmapsmtp.Decimal.{print_i64}
use jmapsmtp.Methods.{parse_since-print}
use jmapsmtp.Methods.Changes.{email_lists, since_version, email_changes, changes_response}
use jmapsmtp.Methods.Membership.{
  after, replayed, replayed-fold_record, fold_record-disjoint, fold_versions-insert,
  fold_versions-last,
}

-- The store `t` is `n` versions ahead of `s`, and the fold of the log between them is `sets`, which
-- leads from the ids of `s` to those of `t`.
pub record Ahead (s t : Store) (n : ℕ) (sets : ChangeSets) : Type 0 where
  pub version : t.state ≡ s.state + n
  pub folded : fold_versions email_lists t.changes (s.state + 1) n no_changes ≡ some sets
  pub ids : (id : Str) → has t id ≡ replayed sets id (has s id)
  pub disjoint :
      (id : Str) → Set.contains id sets.created ≡ true → Set.contains id sets.destroyed ≡ false

Ahead-refl : (s : Store) → Ahead s s 0 no_changes
unfolding fold_versions Set.contains
Ahead-refl s = record {
  version = omega arith;
  folded = refl;
  ids = λ id. refl;
  disjoint = λ id h. refl;
}

Ahead-Quiet :
    (s t u : Store) (n : ℕ) (sets : ChangeSets) → Ahead s t n sets → Quiet t u → Ahead s u n sets
Ahead-Quiet s t u n sets a q = record {
  version = q.state ∙ a.version;
  folded = rw q.changes a.folded;
  ids = λ id. q.ids id ∙ a.ids id;
  disjoint = a.disjoint;
}

Ahead-Recorded :
    (s t u : Store) (n : ℕ) (sets : ChangeSets) (rec : ChangeRecord)
    → Ahead s t n sets
    → Recorded rec t u
    → t.state + 1 < 2 ^ 63
    → Ahead s u (suc n) (fold_record email_lists rec sets)
Ahead-Recorded s t u n sets rec a r small =
    let next : succ_i64 t.state ≡ s.state + 1 + n =
      succ_i64_lem t.state small ∙ omega (arith, a.version) in
    record {
      version = r.state ∙ next ∙ omega arith;
      folded =
          rw (r.changes, next)
            (fold_versions-last email_lists (Map.insert (s.state + 1 + n) rec t.changes) rec
              (s.state + 1) n no_changes sets
              (fold_versions-insert email_lists t.changes (s.state + 1 + n) rec (s.state + 1) n
                  no_changes (omega arith)
                ∙ a.folded)
              (lookup-insert_self (s.state + 1 + n) rec t.changes));
      ids = λ id.
          r.ids id
          ∙ ap (after email_lists rec id) (a.ids id)
          ∙ sym (replayed-fold_record email_lists rec id sets (has s id));
      disjoint = λ id. fold_record-disjoint email_lists rec id sets (a.disjoint id);
    }

module _ (s : Store) where
  step-Ahead :
      (t u : Store) (n : ℕ) (sets : ChangeSets)
      → Ahead s t n sets
      → Logged t u
      → t.state + 1 < 2 ^ 63
      → (m : ℕ) × (sets' : ChangeSets) × Ahead s u m sets' × (m ≤ n + 1)
  step-Ahead t u n sets a (quiet q) small = (n, sets, Ahead-Quiet s t u n sets a q, omega arith)
  step-Ahead t u n sets a (recorded rec r) small = (
    suc n,
    fold_record email_lists rec sets,
    Ahead-Recorded s t u n sets rec a r small,
    omega arith,
  )

  run-Ahead :
      (t : Store) (n : ℕ) (sets : ChangeSets) (ops : List Op)
      → Ahead s t n sets
      → s.state + n + length ops < 2 ^ 63
      → (m : ℕ) × (sets' : ChangeSets) × Ahead s (run ops t) m sets' × (m ≤ n + length ops)
  unfolding run
  run-Ahead t n sets [] a small = (n, sets, a, omega arith)
  run-Ahead t n sets (op ∷ ops) a small =
      let (k, mid, b, le) =
        step-Ahead t (apply op t) n sets a (apply-Logged op t) (omega (arith, a.version)) in
      let (m, end, c, le') = run-Ahead (apply op t) k mid ops b (omega arith) in
      (m, end, c, omega arith)

since_version_lem :
    (since n : ℕ) → since + n < 2 ^ 63 → since_version (print_i64 since) (since + n) ≡ ok since
unfolding since_version
since_version_lem since n h =
    rw (parse_since-print since (omega arith), ltb_i64_lem (since + n) since h (omega arith))
      (ground arith)

email_changes-Ahead :
    (s t : Store) (n : ℕ) (sets : ChangeSets) (account : Str)
    → Ahead s t n sets
    → s.state + n < 2 ^ 63
    → email_changes t account (print_i64 s.state)
      ≡ ok (changes_response account (print_i64 s.state) t.state sets)
unfolding email_changes fold_changes
email_changes-Ahead s t n sets account a small =
    let gap : s.state + n - s.state ≡ n = omega arith in
    rw (a.version, since_version_lem s.state n small) (rw (gap, a.folded))

-- Whatever operations run between two states of a store, `Email/changes` from the first state
-- answers, with three sets and the second state, as long as the counter has room. The second state
-- has exactly the ids that the sets lead to from those of the first: what is created is there, what
-- is destroyed is not, and any other id is there if it was. No id is both created and destroyed.
pub run-email_changes :
    (s : Store) (ops : List Op) (account : Str)
    → s.state + length ops < 2 ^ 63
    → (sets : ChangeSets) × (email_changes (run ops s) account (print_i64 s.state)
        ≡ ok (changes_response account (print_i64 s.state) (run ops s).state sets))
      × ((id : Str) → has (run ops s) id ≡ replayed sets id (has s id))
      × ((id : Str) → (Set.contains id sets.created && Set.contains id sets.destroyed) ≡ false)
run-email_changes s ops account small =
    let (n, sets, a, le) = run-Ahead s s 0 no_changes ops (Ahead-refl s) (omega arith) in
    (
      sets,
      email_changes-Ahead s (run ops s) n sets account a (omega arith),
      a.ids,
      λ id. ground (arith, a.disjoint id),
    )
