-- ===== src/SessionNonce.antt =====
-- crates/jmapserver/src/did/session_nonce.rs: the single-use nonces of a login. The clock and the
-- nonce that is drawn are arguments; both operations hold the lock of the map. A time is the bit
-- pattern of an `i64`.
use jmapsmtp.Prelude.{ℕ, ◌+◌, ◌%◌, ◌^◌, Bool, false, Option, none, some, Str}
use jmapsmtp.Map
use jmapsmtp.Map.{Map}
use jmapsmtp.Keys.{text_ord}
use jmapsmtp.Words.{ltb_i64}
pub mod SingleUse

abbrev pub nonce_ttl_secs : ℕ
nonce_ttl_secs = 60

-- From a nonce to its expiry.
abbrev pub SessionNonceStore : Type 0
SessionNonceStore = Map Str ℕ

unfoldable pub issue : ℕ → Str → SessionNonceStore → SessionNonceStore
unfolding ltb_i64
issue now nonce live =
    Map.insert nonce ((now + nonce_ttl_secs) % 2 ^ 64) (Map.retain (λ exp. ltb_i64 now exp) live)

abbrev pub is_live : ℕ → Option ℕ → Bool
is_live now none = false
is_live now (some exp) = ltb_i64 now exp

unfoldable pub consume : ℕ → Str → SessionNonceStore → SessionNonceStore × Bool
unfolding ltb_i64
consume now nonce live = (Map.remove nonce live, is_live now (Map.lookup nonce live))
