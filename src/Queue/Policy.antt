-- ===== src/Queue/Policy.antt =====
-- crates/jmapsmtp/src/queue/policy.rs: when to try again, and when to stop.
use jmapsmtp.Prelude.{
  ℕ, zero, suc, ◌+◌, Option, none, some, List, [], ◌∷◌, Str, ◌==◌, leb, ltb, ◌&&◌, if◌then◌else◌,
  get_elem?, take, length, is_some, ◌≡◌, arith,
}
use jmapsmtp.Decimal.{parse_digits}
use jmapsmtp.Words.{succ_u32}
use jmapsmtp.Smtp.{Unicode, is_char_boundary}
use jmapsmtp.Smtp.Errors.{SendError, dial, io, rejected, no_recipients, no_mx, invalid_recipient}

pub data Temporality : Type 0 where
  temporary permanent : Temporality

-- `parse::<u16>()` of three bytes: a sign is taken, and no number is too large.
unfoldable pub parse_u16 : Str → Option ℕ
unfolding parse_digits
parse_u16 [] = none
parse_u16 (c ∷ s) = if c == b'+' then parse_digits s else parse_digits (c ∷ s)

unfoldable pub reply_code : Unicode → Str → Option ℕ
unfolding is_char_boundary parse_u16
reply_code u reply =
    let text = u.trim_start reply in
    if is_char_boundary 3 text then parse_u16 (take 3 text) else none

-- The class of a code.
unfoldable pub temporality_of : Option ℕ → Temporality
temporality_of none = temporary
temporality_of (some c) =
    if leb 400 c && ltb c 500
    then temporary
    else if leb 500 c && ltb c 600
    then permanent
    else temporary

unfoldable pub classify : Unicode → SendError → Temporality
unfolding reply_code temporality_of
classify u (dial target e) = temporary
classify u (io e) = temporary
classify u (no_mx domain) = temporary
classify u no_recipients = permanent
classify u (invalid_recipient addr) = permanent
classify u (rejected command reply) = temporality_of (reply_code u reply)

abbrev pub schedule_secs : List ℕ
schedule_secs = 60 ∷ 300 ∷ 900 ∷ 3600 ∷ 7200 ∷ 14400 ∷ 28800 ∷ []

-- `backoff`, in seconds.
unfoldable pub backoff : ℕ → Option ℕ
backoff zero = none
backoff (suc index) = get_elem? schedule_secs index

-- The loop of `attempts_remaining`. Eight rounds are enough, since the schedule has seven steps.
unfoldable pub remaining_from : ℕ → ℕ → ℕ
unfolding backoff succ_u32
remaining_from zero n = 0
remaining_from (suc fuel) n =
    let rest = remaining_from fuel (succ_u32 n) in if is_some (backoff n) then suc rest else 0

unfoldable pub attempts_remaining : ℕ → ℕ
unfolding remaining_from
attempts_remaining attempts_so_far = remaining_from 8 (succ_u32 attempts_so_far)

unfoldable pub window_from : ℕ → ℕ → ℕ
unfolding backoff
window_from zero n = 0
window_from (suc fuel) n =
    let rest = window_from fuel (succ_u32 n) in elim (backoff n) [ none ↦ 0 | some d ↦ d + rest ]

unfoldable pub total_window : ℕ
unfolding window_from
total_window = window_from 8 1

get_elem?-length {ℓ} :
    {A : Type ℓ} (xs : List A) (i : ℕ) → is_some (get_elem? xs i) ≡ ltb i (length xs)
get_elem?-length [] i = ground arith
get_elem?-length (x ∷ xs) zero = ground arith
get_elem?-length (x ∷ xs) (suc i) = ground (arith, get_elem?-length xs i)

-- There is a wait behind the first attempt and up to the seventh.
pub is_some-backoff : (n : ℕ) → is_some (backoff n) ≡ (leb 1 n && leb n 7)
unfolding backoff
is_some-backoff zero = ground arith
is_some-backoff (suc i) = ground (arith, get_elem?-length schedule_secs i)
