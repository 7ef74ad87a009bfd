-- ===== src/Prelude/Text.antt =====
-- Texts. A Rust `String` or `Vec<u8>` is the list of its bytes.
use Prim.Native.Nat.{ℕ, compare, Ordering, ◌+◌, ◌-◌}
use Prim.Native.Char.{code}
use Prim.Native.String.{String}
use mathlib.Core.Path.{◌≡◌, refl}
use mathlib.Core.Bool.{Bool, true, false, ◌&&◌, ◌||◌}
use mathlib.Core.List.{List, [], ◌∷◌, ◌++◌, map}
use mathlib.Core.Option.{Option, none, some}
use mathlib.Core.Logic.{◌↔◌}
use native.Mathlib.Omega.{arith}
use jmapsmtp.Prelude.Tests.{leb, ◌==◌, if◌then◌else◌}

abbrev pub Str : Type 0
Str = List ℕ

-- The bytes of an ASCII literal.
abbrev pub codes : String → Str
codes String.[] = []
codes (String.◌∷◌ c s) = code c ∷ codes s

-- `Ord for str`: lexicographic order of the bytes.
unfoldable pub text_compare : Str → Str → Ordering
text_compare [] [] = Ordering.eq
text_compare [] (y ∷ ys) = Ordering.lt
text_compare (x ∷ xs) [] = Ordering.gt
text_compare (x ∷ xs) (y ∷ ys) = elim (compare x y) [
  | Ordering.lt ↦ Ordering.lt
  | Ordering.eq ↦ text_compare xs ys
  | Ordering.gt ↦ Ordering.gt
]

pub text_compare_iff : (a b : Str) → (text_compare a b ≡ Ordering.eq) ↔ (a ≡ b)
unfolding text_compare
text_compare_iff [] [] = (λ _. refl, λ _. refl)
text_compare_iff [] (y ∷ ys) = (λ h. cc, λ h. cc)
text_compare_iff (x ∷ xs) [] = (λ h. cc, λ h. cc)
text_compare_iff (x ∷ xs) (y ∷ ys) =
    let (there, back) = text_compare_iff xs ys in
    (λ h. ground (arith, there), λ h. ground (arith, back))

unfoldable pub text_eq : Str → Str → Bool
unfolding text_compare
text_eq a b = elim (text_compare a b) [ Ordering.eq ↦ true | _ ↦ false ]

pub text_eq_iff : (a b : Str) → (text_eq a b ≡ true) ↔ (a ≡ b)
unfolding text_eq
text_eq_iff a b =
    let (there, back) = text_compare_iff a b in
    (λ h. there (ground arith), λ h. ground (arith, back h))

pub text_eq_refl : (a : Str) → text_eq a a ≡ true
text_eq_refl a = (text_eq_iff a a).1 refl

-- ASCII letters.
abbrev pub is_upper : ℕ → Bool
is_upper c = leb b'A' c && leb c b'Z'

abbrev pub is_lower : ℕ → Bool
is_lower c = leb b'a' c && leb c b'z'

abbrev pub is_digit : ℕ → Bool
is_digit c = leb b'0' c && leb c b'9'

-- `u8::to_ascii_lowercase` and `to_ascii_uppercase`.
unfoldable pub lower_byte : ℕ → ℕ
lower_byte c = if is_upper c then c + 32 else c

unfoldable pub upper_byte : ℕ → ℕ
upper_byte c = if is_lower c then c - 32 else c

unfoldable pub to_ascii_lowercase : Str → Str
unfolding lower_byte
to_ascii_lowercase = map lower_byte

unfoldable pub to_ascii_uppercase : Str → Str
unfolding upper_byte
to_ascii_uppercase = map upper_byte

-- `str::eq_ignore_ascii_case`.
unfoldable pub eq_ignore_ascii_case : Str → Str → Bool
unfolding text_eq to_ascii_lowercase
eq_ignore_ascii_case a b = text_eq (to_ascii_lowercase a) (to_ascii_lowercase b)

-- `strip_prefix`, and `starts_with` by it.
unfoldable pub strip_prefix : Str → Str → Option Str
strip_prefix [] s = some s
strip_prefix (p ∷ ps) [] = none
strip_prefix (p ∷ ps) (c ∷ s) = let rest = strip_prefix ps s in if p == c then rest else none

unfoldable pub starts_with : Str → Str → Bool
unfolding strip_prefix
starts_with p s = elim (strip_prefix p s) [ none ↦ false | some _ ↦ true ]

-- A predicate's bytes dropped at the front, and at both ends.
unfoldable pub trim_start_by : (ℕ → Bool) → Str → Str
trim_start_by p [] = []
trim_start_by p (c ∷ s) = let rest = trim_start_by p s in if p c then rest else c ∷ s

unfoldable pub trim_end_by : (ℕ → Bool) → Str → Str
trim_end_by p [] = []
trim_end_by p (c ∷ s) = elim (trim_end_by p s) [
  | [] ↦ if p c then [] else c ∷ []
  | d ∷ t ↦ c ∷ d ∷ t
]

unfoldable pub trim_by : (ℕ → Bool) → Str → Str
unfolding trim_start_by trim_end_by
trim_by p s = trim_end_by p (trim_start_by p s)

-- `char::is_whitespace` on ASCII: tab, line feed, vertical tab, form feed, return, space.
abbrev pub is_whitespace : ℕ → Bool
is_whitespace c = c == 32 || leb 9 c && leb c 13

unfoldable pub trim : Str → Str
unfolding trim_by
trim = trim_by is_whitespace

unfoldable pub trim_start : Str → Str
unfolding trim_start_by
trim_start = trim_start_by is_whitespace

-- `str::split` at a byte: the current part in front of the parts that follow.
abbrev pub prepend : ℕ → List Str → List Str
prepend c [] = (c ∷ []) ∷ []
prepend c (p ∷ ps) = (c ∷ p) ∷ ps

unfoldable pub split : ℕ → Str → List Str
split sep [] = [] ∷ []
split sep (c ∷ s) = let rest = split sep s in if c == sep then [] ∷ rest else prepend c rest

-- `split_once` and `rsplit_once` at a byte.
unfoldable pub split_once : ℕ → Str → Option (Str × Str)
split_once sep [] = none
split_once sep (c ∷ s) =
    let rest = split_once sep s in
    if c == sep then some ([], s) else elim rest [ none ↦ none | some (a, b) ↦ some (c ∷ a, b) ]

unfoldable pub rsplit_once : ℕ → Str → Option (Str × Str)
rsplit_once sep [] = none
rsplit_once sep (c ∷ s) = elim (rsplit_once sep s) [
  | some (a, b) ↦ some (c ∷ a, b)
  | none ↦ if c == sep then some ([], s) else none
]

-- `join` with a separator.
unfoldable pub join : Str → List Str → Str
join sep [] = []
join sep (p ∷ []) = p
join sep (p ∷ q ∷ ps) = p ++ sep ++ join sep (q ∷ ps)

-- `replace` of one byte by another.
unfoldable pub replace_byte : ℕ → ℕ → Str → Str
replace_byte from to [] = []
replace_byte from to (c ∷ s) = (if c == from then to else c) ∷ replace_byte from to s
