-- ===== src/Mime/Text/Levels.antt =====
-- A part is shorter than the body that it stands in, so that the levels of `extract_mime_text`, one
-- more than the bytes of the body, are enough (crates/jmapserver/src/mime.rs).
use jmapsmtp.Prelude.{
  ℕ, zero, suc, ◌≤◌, ◌<◌, Option, none, some, List, [], ◌∷◌, ◌++◌, Str, codes, ◌≡◌, refl, arith,
  length, starts_with, All, Bool-cases, Option-cases, inl, inr,
}
use jmapsmtp.Map
use jmapsmtp.Keys.{text_ord}
use jmapsmtp.Mime.Text.Lengths.{
  find-length, strip_line_end-length, strip_line_start-length, split_head_body-length,
}
use jmapsmtp.Mime.{
  Platform, Part, Headers, find, split_head_body, split_message, strip_line_end, strip_line_start,
  parts_from, split_parts, parse_media_type,
}
use jmapsmtp.Mime.Text.{
  mixed_text, text_of, extract_text, extract_mime_text, media_of, content_type, transfer_encoding,
  first_html, multipart_text,
}

abbrev IsWithin : ℕ → Part → Type 0
IsWithin n part = length part.body < n

All-IsWithin_mono :
    (m n : ℕ) (parts : List Part) → m ≤ n → All (IsWithin m) parts → All (IsWithin n) parts
All-IsWithin_mono m n [] h all = tt
All-IsWithin_mono m n (part ∷ parts) h all = (omega arith, All-IsWithin_mono m n parts h all.1)

module _ (p : Platform) where
  split_message-length :
      (s : Str) (headers : Headers) (body : Str)
      → split_message p s ≡ some (headers, body)
      → length body ≤ length s
  unfolding split_message
  split_message-length s headers body h = elim (Option-cases (split_head_body s)) [
    | inl e ↦ ground arith
    | inr ((b, a), e) ↦ ground (arith, split_head_body-length s b a e)
  ]

  add_part-IsWithin :
      (n : ℕ) (piece : Str) (parts : List Part)
      → length piece < n
      → All (IsWithin n) parts
      → All (IsWithin n) (elim (split_message p piece) [
        | none ↦ parts
        | some (headers, body) ↦ record { headers = headers; body = body } ∷ parts
      ])
  add_part-IsWithin n piece parts h all = elim (Option-cases (split_message p piece)) [
    | inl e ↦ rw e all
    | inr ((headers, body), e) ↦
        rw e (omega (arith, split_message-length piece headers body e), all)
  ]

  parts_from-IsWithin :
      (f : ℕ) (delim rest : Str) → All (IsWithin (suc (length rest))) (parts_from p f delim rest)
  unfolding parts_from
  parts_from-IsWithin zero delim rest = tt
  parts_from-IsWithin (suc f) delim rest = elim (Bool-cases (starts_with (codes "--") rest)) [
    | inl e ↦ rw (parts_from, e) tt
    | inr e ↦ elim (Option-cases (find delim (strip_line_start rest))) [
      | inl q ↦ rw (parts_from, e, q) tt
      | inr ((piece, after), q) ↦
          let size = find-length delim (strip_line_start rest) piece after q in
          let all = parts_from-IsWithin f delim after in
          rw (parts_from, e, q)
            (add_part-IsWithin (suc (length rest)) (strip_line_end piece)
              (parts_from p f delim after)
              (omega (arith, strip_line_end-length piece, strip_line_start-length rest))
              (All-IsWithin_mono (suc (length after)) (suc (length rest))
                (parts_from p f delim after) (omega (arith, strip_line_start-length rest)) all))
    ]
  ]

  -- Each part of a body is shorter than the body.
  split_parts-IsWithin :
      (body boundary : Str) (n : ℕ)
      → length body ≤ n
      → All (IsWithin n) (split_parts p body boundary)
  unfolding split_parts
  split_parts-IsWithin body boundary n h =
      let delim = codes "--" ++ boundary in
      elim (Option-cases (find delim body)) [
        | inl e ↦ rw (split_parts, e) tt
        | inr ((preamble, rest), e) ↦
            rw (split_parts, e)
              (All-IsWithin_mono (suc (length rest)) n (parts_from p (suc (length rest)) delim rest)
                (omega (arith, find-length delim body preamble rest e))
                (parts_from-IsWithin (suc (length rest)) delim rest))
      ]

  -- Two readers of nested parts that agree on the parts of a body agree on the body.
  module _ (f g : Str → Str → Str → Str) where
    abbrev Agree : ℕ → Type 0
    Agree n = (ct cte body : Str) → length body < n → f ct cte body ≡ g ct cte body

    mixed_text-Agree :
        (n : ℕ) (fallback : Str) (parts : List Part)
        → Agree n
        → All (IsWithin n) parts
        → mixed_text p f fallback parts ≡ mixed_text p g fallback parts
    unfolding mixed_text
    mixed_text-Agree n fallback [] agree all = refl
    mixed_text-Agree n fallback (part ∷ parts) agree all =
        let media = media_of p (content_type part) in
        let html = first_html p f fallback media (transfer_encoding part) part.body in
        rw (
          agree (content_type part) (transfer_encoding part) part.body all.0,
          mixed_text-Agree n fallback parts agree all.1,
          mixed_text-Agree n html parts agree all.1,
        )

    multipart_text-Agree :
        (n : ℕ) (body : Str) (boundary : Option Str)
        → Agree n
        → length body ≤ n
        → multipart_text p (mixed_text p f []) body boundary
          ≡ multipart_text p (mixed_text p g []) body boundary
    multipart_text-Agree n body none agree h = refl
    multipart_text-Agree n body (some boundary) agree h =
        mixed_text-Agree n [] (split_parts p body boundary) agree
          (split_parts-IsWithin body boundary n h)

    text_of-Agree :
        (n : ℕ) (ct cte body : Str)
        → Agree n
        → length body ≤ n
        → text_of p f ct cte body ≡ text_of p g ct cte body
    unfolding text_of
    text_of-Agree n ct cte body agree h = elim (Option-cases (parse_media_type p ct)) [
      | inl e ↦ rw (text_of, e)
      | inr ((media, params), e) ↦
          let loops = multipart_text-Agree n body (Map.lookup (codes "boundary") params) agree h in
          rw (text_of, e, loops)
    ]

  extract_text-levels :
      (f g : ℕ) (ct cte body : Str)
      → length body < f
      → length body < g
      → extract_text p f ct cte body ≡ extract_text p g ct cte body
  unfolding extract_text
  extract_text-levels zero g ct cte body hf hg = absurd (omega arith)
  extract_text-levels (suc f) zero ct cte body hf hg = absurd (omega arith)
  extract_text-levels (suc f) (suc g) ct cte body hf hg =
      text_of-Agree (extract_text p f) (extract_text p g) (length body) ct cte body
        (λ c t b h. extract_text-levels f g c t b (omega arith) (omega arith)) (omega arith)

  parts_from-rounds :
      (f g : ℕ) (boundary rest : Str)
      → length rest < f
      → length rest < g
      → parts_from p f (codes "--" ++ boundary) rest ≡ parts_from p g (codes "--" ++ boundary) rest
  unfolding parts_from
  parts_from-rounds zero g boundary rest hf hg = absurd (omega arith)
  parts_from-rounds (suc f) zero boundary rest hf hg = absurd (omega arith)
  parts_from-rounds (suc f) (suc g) boundary rest hf hg =
      let delim = codes "--" ++ boundary in
      elim (Option-cases (find delim (strip_line_start rest))) [
        | inl q ↦ rw (parts_from, q)
        | inr ((piece, after), q) ↦
            let size = find-length delim (strip_line_start rest) piece after q in
            let shorter : length after < length rest =
              omega (arith, strip_line_start-length rest) in
            rw (parts_from, q, parts_from-rounds f g boundary after (omega arith) (omega arith))
      ]

  -- The parts behind the first delimiter, as far as a number of rounds reads them.
  abbrev pub parts_within : ℕ → Str → Option (Str × Str) → List Part
  parts_within rounds boundary none = []
  parts_within rounds boundary (some (preamble, rest)) =
      parts_from p rounds (codes "--" ++ boundary) rest

  parts_within-split_parts :
      (rounds : ℕ) (body boundary : Str) (found : Option (Str × Str))
      → find (codes "--" ++ boundary) body ≡ found
      → ((preamble rest : Str) → found ≡ some (preamble, rest) → length rest < rounds)
      → parts_within rounds boundary found ≡ split_parts p body boundary
  unfolding split_parts
  parts_within-split_parts rounds body boundary none e enough = rw (split_parts, e) refl
  parts_within-split_parts rounds body boundary (some (preamble, rest)) e enough =
      rw (split_parts, e)
        (parts_from-rounds rounds (suc (length rest)) boundary rest (enough preamble rest refl)
          (omega arith))

  -- For any body, with a delimiter or none, any number of levels above the number of its bytes gives
  -- the text that `extract_mime_text` gives, and any number of rounds above the number of bytes behind
  -- the first delimiter gives the parts that `split_parts` gives.
  pub extract_text-extract_mime_text :
      (ct cte body boundary : Str) (levels rounds : ℕ)
      → length body < levels
      → ((preamble rest : Str)
          → find (codes "--" ++ boundary) body ≡ some (preamble, rest)
          → length rest < rounds)
      → (extract_text p levels ct cte body ≡ extract_mime_text p ct cte body)
        × (parts_within rounds boundary (find (codes "--" ++ boundary) body)
            ≡ split_parts p body boundary)
  unfolding extract_mime_text
  extract_text-extract_mime_text ct cte body boundary levels rounds h enough = (
    extract_text-levels levels (suc (length body)) ct cte body h (omega arith),
    parts_within-split_parts rounds body boundary (find (codes "--" ++ boundary) body) refl enough,
  )
