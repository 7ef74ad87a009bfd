-- ===== src/Devices/Freshness.antt =====
-- The window in which a signed statement is fresh (crates/jmapserver/src/did/devicebind.rs).
use jmapsmtp.Prelude.{ℕ, ◌+◌, ◌≤◌, ◌<◌, ◌^◌, true, ◌≡◌, ◌↔◌, arith}
use jmapsmtp.Devices.{is_fresh}

-- The two times are at most five minutes apart.
abbrev pub IsClose : ℕ → ℕ → Type 0
IsClose ts now = (ts ≤ now + 300) × (now ≤ ts + 300)

-- A time that is not negative is fresh exactly if it is at most five minutes away from now.
pub is_fresh_lem :
    (ts now : ℕ) → ts < 2 ^ 63 → now < 2 ^ 63 → (is_fresh ts now ≡ true) ↔ IsClose ts now
unfolding is_fresh
is_fresh_lem ts now h k = (λ e. ground arith, λ e. ground arith)
