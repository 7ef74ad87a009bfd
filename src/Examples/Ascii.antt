-- ===== src/Examples/Ascii.antt =====
-- The functions on Unicode, for text that is ASCII.
use jmapsmtp.Prelude.{
  ℕ, Bool, Option, none, some, [], ◌∷◌, Str, if◌then◌else◌, is_whitespace, to_ascii_lowercase,
  to_ascii_uppercase, trim, trim_start, suc,
}
use jmapsmtp.Smtp.{Unicode}

abbrev find_by : (ℕ → Bool) → Str → Option ℕ
find_by p [] = none
find_by p (c ∷ s) =
    if p c then some 0 else elim (find_by p s) [ none ↦ none | some i ↦ some (suc i) ]

abbrev pub ascii : Unicode
ascii = record {
  to_lowercase = to_ascii_lowercase;
  to_uppercase = to_ascii_uppercase;
  trim = trim;
  trim_start = trim_start;
  find_whitespace = find_by is_whitespace;
  debug = λ s. s;
}
