-- ===== src/SessionNonce/SingleUse.antt =====
-- A nonce is redeemed no more often than it was issued (crates/jmapserver/src/did/session_nonce.rs).
use jmapsmtp.Prelude.{
  ℕ, ◌+◌, ◌%◌, ◌^◌, ◌≤◌, Bool, true, false, List, [], ◌∷◌, Str, ◌&&◌, ◌≡◌, arith, text_eq,
  text_eq_iff,
}
use jmapsmtp.Map
use jmapsmtp.Map.{
  Map, lookup-insert, lookup-remove, lookup-insert_self, contains_key-insert, contains_key-remove,
}
use jmapsmtp.Keys.{text_ord, same_iff}
use jmapsmtp.Words.{ltb_i64}
use jmapsmtp.SessionNonce.{SessionNonceStore, issue, consume}

-- What the requests do to the store, each at a time.
pub data Op : Type 0 where
  issue_op : ℕ → Str → Op
  consume_op : ℕ → Str → Op

abbrev count : Bool → ℕ
count true = 1
count false = 0

-- How often a nonce was issued, and how often it was redeemed.
unfoldable pub issued : Str → List Op → ℕ
issued n [] = 0
issued n (issue_op now nonce ∷ ops) = count (text_eq nonce n) + issued n ops
issued n (consume_op now nonce ∷ ops) = issued n ops

unfoldable pub redeemed : Str → List Op → SessionNonceStore → ℕ
redeemed n [] live = 0
redeemed n (issue_op now nonce ∷ ops) live = redeemed n ops (issue now nonce live)
redeemed n (consume_op now nonce ∷ ops) live =
    let step = consume now nonce live in count (text_eq nonce n && step.1) + redeemed n ops step.0

contains_key-retain :
    (p : ℕ → Bool) (n : Str) (live : SessionNonceStore)
    → Map.contains_key n live ≡ false
    → Map.contains_key n (Map.retain p live) ≡ false
unfolding Map.contains_key Map.retain Map.lookup
contains_key-retain p n [] h = h
contains_key-retain p n ((k, v) ∷ live) h = ground (arith, contains_key-retain p n live)

contains_key-issue :
    (now : ℕ) (nonce n : Str) (live : SessionNonceStore)
    → count (Map.contains_key n (issue now nonce live))
      ≤ count (text_eq nonce n) + count (Map.contains_key n live)
unfolding issue
contains_key-issue now nonce n live = ground (
  arith,
  contains_key-insert nonce n ((now + 60) % 2 ^ 64) (Map.retain (λ exp. ltb_i64 now exp) live),
  contains_key-retain (λ exp. ltb_i64 now exp) n live,
  same_iff n nonce,
  text_eq_iff nonce n,
)

contains_key-consume :
    (now : ℕ) (nonce n : Str) (live : SessionNonceStore)
    → count (text_eq nonce n && (consume now nonce live).1)
        + count (Map.contains_key n (consume now nonce live).0)
      ≤ count (Map.contains_key n live)
unfolding consume Map.contains_key
contains_key-consume now nonce n live =
    ground (arith, lookup-remove nonce n live, same_iff n nonce, text_eq_iff nonce n)

redeemed-bound :
    (n : Str) (ops : List Op) (live : SessionNonceStore)
    → redeemed n ops live ≤ issued n ops + count (Map.contains_key n live)
unfolding redeemed issued
redeemed-bound n [] live = omega arith
redeemed-bound n (issue_op now nonce ∷ ops) live =
    omega (arith, redeemed-bound n ops (issue now nonce live), contains_key-issue now nonce n live)
redeemed-bound n (consume_op now nonce ∷ ops) live =
    omega (
      arith,
      redeemed-bound n ops (consume now nonce live).0,
      contains_key-consume now nonce n live,
    )

-- Whatever requests come and at whatever times, a nonce is redeemed no more often than it was issued.
pub redeemed-issued : (n : Str) (ops : List Op) → redeemed n ops [] ≤ issued n ops
unfolding Map.contains_key Map.lookup
redeemed-issued n ops = omega (arith, redeemed-bound n ops [])
