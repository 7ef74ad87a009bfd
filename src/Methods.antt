-- ===== src/Methods.antt =====
-- crates/jmapserver/src/methods/mod.rs: the failures of a method, and the parse of a state string.
use jmapsmtp.Prelude.{
  ℕ, zero, suc, Bool, true, Option, none, some, List, [], ◌∷◌, Str, ◌==◌, ◌<◌, ◌^◌, ◌≡◌, ltb,
  if◌then◌else◌, arith, codes, ◌&&◌, leb, is_digit, refl,
}
use jmapsmtp.Result.{Result, ok, err}
use jmapsmtp.Decimal.{print, print_i64, print_i64_lem, parse_digits, parse_digits-print, print-head}
pub mod Fold
pub mod Membership
pub mod Changes
pub mod Query

pub data MethodError : Type 0 where
  cannot_calculate_changes : MethodError
  unknown_method : Str → MethodError
  server_fail : Str → MethodError

abbrev pub MethodResult : Type 0 → Type 0
MethodResult A = Result MethodError A

-- `n >= 0` of a parsed `i64`. The bound is that of the positive numbers: a negative one is refused
-- whatever it is, but for the text of zero with a sign.
abbrev non_negative : Option ℕ → MethodResult ℕ
non_negative none = err cannot_calculate_changes
non_negative (some n) = if ltb n (2 ^ 63) then ok n else err cannot_calculate_changes

abbrev negated : Option ℕ → MethodResult ℕ
negated (some zero) = ok 0
negated _ = err cannot_calculate_changes

unfoldable pub parse_since : Str → MethodResult ℕ
parse_since [] = err cannot_calculate_changes
parse_since (c ∷ s) =
    if c == b'+'
    then non_negative (parse_digits s)
    else if c == b'-'
    then negated (parse_digits s)
    else non_negative (parse_digits (c ∷ s))

parse_since-digit :
    (c : ℕ) (s : Str) (n : ℕ)
    → is_digit c ≡ true
    → parse_digits (c ∷ s) ≡ some n
    → n < 2 ^ 63
    → parse_since (c ∷ s) ≡ ok n
unfolding parse_since
parse_since-digit c s n d whole h = ground arith

-- A state that the server printed is read back, as long as the counter is not negative.
pub parse_since-print : (n : ℕ) → n < 2 ^ 63 → parse_since (print_i64 n) ≡ ok n
parse_since-print n h =
    let (c, s, e, d) = print-head n in
    rw (print_i64_lem n h, e) (parse_since-digit c s n d (rw e at (parse_digits-print n)) h)
