-- ===== src/Mime/Text/Lengths.antt =====
-- What is found in a text and cut off it is no longer than the text (crates/jmapserver/src/mime.rs).
use jmapsmtp.Prelude.{
  ◌+◌, ◌≤◌, some, [], ◌∷◌, Str, ◌≡◌, arith, length, strip_prefix, Option-cases, inl, inr,
}
use jmapsmtp.Keys.{text_ord}
use jmapsmtp.Mime.{find, split_head_body, strip_line_end, strip_line_start}

strip_prefix-length :
    (n s rest : Str) → strip_prefix n s ≡ some rest → length n + length rest ≡ length s
unfolding strip_prefix
strip_prefix-length [] s rest h = ground arith
strip_prefix-length (b ∷ n) [] rest h = ground arith
strip_prefix-length (b ∷ n) (c ∷ s) rest h = ground (arith, strip_prefix-length n s rest)

pub find-length :
    (n s before after : Str)
    → find n s ≡ some (before, after)
    → length before + length n + length after ≡ length s
unfolding find
find-length n [] before after h = elim (Option-cases (strip_prefix n [])) [
  | inl e ↦ ground arith
  | inr (rest, e) ↦ ground (arith, strip_prefix-length n [] rest e)
]
find-length n (c ∷ s) before after h = elim (Option-cases (strip_prefix n (c ∷ s))) [
  | inl e ↦ elim (Option-cases (find n s)) [
    | inl q ↦ ground arith
    | inr ((b, a), q) ↦ ground (arith, find-length n s b a q)
  ]
  | inr (rest, e) ↦ ground (arith, strip_prefix-length n (c ∷ s) rest e)
]

pub strip_line_end-length : (s : Str) → length (strip_line_end s) ≤ length s
unfolding strip_line_end
strip_line_end-length [] = omega arith
strip_line_end-length (c ∷ []) = ground arith
strip_line_end-length (c ∷ d ∷ []) = ground (arith, strip_line_end-length (d ∷ []))
strip_line_end-length (c ∷ d ∷ e ∷ s) = omega (arith, strip_line_end-length (d ∷ e ∷ s))

pub strip_line_start-length : (s : Str) → length (strip_line_start s) ≤ length s
unfolding strip_line_start
strip_line_start-length s = elim (Option-cases (strip_prefix (13 ∷ 10 ∷ []) s)) [
  | inl e ↦ elim (Option-cases (strip_prefix (10 ∷ []) s)) [
    | inl q ↦ ground arith
    | inr (rest, q) ↦ ground (arith, strip_prefix-length (10 ∷ []) s rest q)
  ]
  | inr (rest, e) ↦ ground (arith, strip_prefix-length (13 ∷ 10 ∷ []) s rest e)
]

pub split_head_body-length :
    (s head body : Str) → split_head_body s ≡ some (head, body) → length body ≤ length s
unfolding split_head_body
split_head_body-length s head body h = elim (Option-cases (find (13 ∷ 10 ∷ 13 ∷ 10 ∷ []) s)) [
  | inl e ↦ elim (Option-cases (find (10 ∷ 10 ∷ []) s)) [
    | inl q ↦ ground arith
    | inr ((b, a), q) ↦ ground (arith, find-length (10 ∷ 10 ∷ []) s b a q)
  ]
  | inr ((b, a), e) ↦ ground (arith, find-length (13 ∷ 10 ∷ 13 ∷ 10 ∷ []) s b a e)
]
