-- ===== src/Words.antt =====
-- Machine integers. An `i64` is its two's-complement bit pattern, a number below 2 ^ 64.
use jmapsmtp.Prelude.{ℕ, Bool, ◌+◌, ◌%◌, ◌^◌, ◌<◌, ◌≡◌, arith, ltb}

unfoldable pub succ_i64 : ℕ → ℕ
succ_i64 n = (n + 1) % 2 ^ 64

-- `<` on `i64`: the signed order of the two patterns.
unfoldable pub ltb_i64 : ℕ → ℕ → Bool
ltb_i64 a b = ltb ((a + 2 ^ 63) % 2 ^ 64) ((b + 2 ^ 63) % 2 ^ 64)

unfoldable pub succ_u32 : ℕ → ℕ
succ_u32 n = (n + 1) % 2 ^ 32

-- The patterns that stand for no negative number.
abbrev pub IsNonNegative : ℕ → Type 0
IsNonNegative n = n < 2 ^ 63

pub succ_i64_lem : (n : ℕ) → n + 1 < 2 ^ 63 → succ_i64 n ≡ n + 1
unfolding succ_i64
succ_i64_lem n h = omega arith

pub ltb_i64_lem : (a b : ℕ) → IsNonNegative a → IsNonNegative b → ltb_i64 a b ≡ ltb a b
unfolding ltb_i64
ltb_i64_lem a b h k = ground arith
