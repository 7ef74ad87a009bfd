-- ===== src/Mime/Words/RoundTrip.antt =====
-- An encoded word that the relay writes, and what its own decoder makes of it
-- (crates/jmapserver/src/mime.rs).
use mathlib.Core.Path.{subst}
use jmapsmtp.Prelude.{
  if◌then◌else◌, ℕ, zero, suc, ◌/◌, ◌%◌, Bool, true, false, none, some, [], ◌∷◌, ◌++◌, ◌||◌, Str,
  codes, ◌==◌, ==_iff, ◌≡◌, refl, ap, sym, ◌∙◌, arith, All, Bool-cases, inl, inr, append-nil,
  replace_byte, length, strip_prefix,
}
use jmapsmtp.Mime.{Platform, find}
use jmapsmtp.Mime.Words.{
  decode_quoted_printable, is_plain, hex_upper, encode_bytes, encode_word, decode_one_word,
  decode_rest, decode_words,
}
use jmapsmtp.Mime.Words.Bytes.{
  IsByte, encode_byte-plain, encode_byte-escape, encode_bytes-IsWord, decode-encode,
}
use jmapsmtp.Mime.Words.Find.{find-word, find-none_prefix, find-none_word}

-- A byte that `encode_word` does not escape.
abbrev pub is_unescaped : ℕ → Bool
is_unescaped b = b == b' ' || is_plain b

-- The first byte of the word, if the first byte of the text is not escaped.
encode_bytes-first :
    (b : ℕ) (s : Str)
    → is_unescaped b ≡ true
    → (c : ℕ) × (encode_bytes (b ∷ s) ≡ c ∷ encode_bytes s) × ((c == b'=') ≡ false)
unfolding encode_bytes
encode_bytes-first b s h = elim (Bool-cases (b == b' ')) [
  | inl e ↦ (b'_', rw ((==_iff b b' ').0 e), refl)
  | inr e ↦ let (shape, _, eq, _) = encode_byte-plain b (rw e at h) in (b, rw shape, eq)
]

find-none_behind :
    (s : Str)
    → All IsByte s
    → find (codes "=?") (codes "utf-8?q?" ++ encode_bytes s ++ codes "?=") ≡ none
find-none_behind s h =
    find-none_prefix b'=' (b'?' ∷ []) (codes "utf-8?q?") (encode_bytes s ++ codes "?=")
      (refl, (refl, (refl, (refl, (refl, (refl, (refl, (refl, tt)))))))) (find-none_word s h)

module _ (p : Platform) where
  decode_one_word-found :
      (after text : Str)
      → find (codes "?=") after ≡ some (codes "utf-8?q?" ++ text, [])
      → decode_one_word p after
        ≡ some (p.from_utf8_lossy (decode_quoted_printable (replace_byte b'_' b' ' text)), [])
  unfolding decode_one_word
  decode_one_word-found after text h = rw (decode_one_word, h)

  decode_one_word-cut :
      (after rest : Str)
      → find (codes "?=") after ≡ some (codes "utf-8?q", rest)
      → decode_one_word p after ≡ none
  unfolding decode_one_word
  decode_one_word-cut after rest h = rw (decode_one_word, h)

  decode_one_word-encoded :
      (b : ℕ) (s : Str)
      → is_unescaped b ≡ true
      → All IsByte (b ∷ s)
      → decode_one_word p (codes "utf-8?q?" ++ encode_bytes (b ∷ s) ++ codes "?=")
        ≡ some (p.from_utf8_lossy (b ∷ s), [])
  decode_one_word-encoded b s h all =
      let (c, shape, eq) = encode_bytes-first b s h in
      let word = rw shape at (encode_bytes-IsWord (b ∷ s) all) in
      let found = find-word c (encode_bytes s) eq word in
      subst
        (λ w.
          decode_one_word p (codes "utf-8?q?" ++ w ++ codes "?=")
          ≡ some (p.from_utf8_lossy (b ∷ s), []))
        (sym shape)
        (decode_one_word-found (codes "utf-8?q?" ++ (c ∷ encode_bytes s) ++ codes "?=")
            (c ∷ encode_bytes s) found
          ∙ rw (← shape, decode-encode (b ∷ s) all))

  -- The end of a word, found too early.
  decode_one_word-escaped :
      (d : ℕ) (w : Str) → decode_one_word p (codes "utf-8?q?" ++ b'=' ∷ d ∷ w) ≡ none
  decode_one_word-escaped d w = decode_one_word-cut _ (d ∷ w) (unfold find strip_prefix in refl)

  decode_one_word-first :
      (b : ℕ) (s : Str)
      → is_unescaped b ≡ false
      → decode_one_word p (codes "utf-8?q?" ++ encode_bytes (b ∷ s) ++ codes "?=") ≡ none
  unfolding encode_bytes
  decode_one_word-first b s h = rw (encode_byte-escape b (ground arith) (ground arith)) (
      decode_one_word-escaped (hex_upper (b / 16))
        (hex_upper (b % 16) ∷ (encode_bytes s ++ codes "?=")))

  decode_rest-round :
      (f : ℕ) (s text : Str)
      → decode_one_word p s ≡ some (text, [])
      → decode_rest p (suc f) (codes "=?" ++ s) ≡ text ++ decode_rest p f []
  unfolding decode_rest find strip_prefix
  decode_rest-round f s text h = rw (decode_rest, h)

  decode_rest-skip :
      (f : ℕ) (s : Str)
      → decode_one_word p s ≡ none
      → find (codes "=?") s ≡ none
      → decode_rest p (suc (suc f)) (codes "=?" ++ s) ≡ codes "=?" ++ s
  unfolding decode_rest find strip_prefix
  decode_rest-skip f s h k = rw (decode_rest, h, k)

  decode_rest-nil : (f : ℕ) → decode_rest p f [] ≡ []
  unfolding decode_rest find strip_prefix
  decode_rest-nil zero = refl
  decode_rest-nil (suc f) = refl

  decode_words-from :
      (s text : Str)
      → ((f : ℕ) → decode_rest p (suc (suc f)) (codes "=?" ++ s) ≡ text)
      → decode_words p (codes "=?" ++ s) ≡ text
  unfolding decode_words
  decode_words-from s text h = h (length s)

  abbrev behind_start : Str → Str
  behind_start s = codes "utf-8?q?" ++ encode_bytes s ++ codes "?="

  encode_word-start : (s : Str) → encode_word s ≡ codes "=?" ++ behind_start s
  unfolding encode_word
  encode_word-start s = refl

  decode_words-unescaped :
      (b : ℕ) (s : Str)
      → is_unescaped b ≡ true
      → All IsByte (b ∷ s)
      → p.from_utf8_lossy (b ∷ s) ≡ b ∷ s
      → decode_words p (encode_word (b ∷ s)) ≡ b ∷ s
  decode_words-unescaped b s h all utf8 =
      ap (decode_words p) (encode_word-start (b ∷ s))
      ∙ decode_words-from (behind_start (b ∷ s)) (b ∷ s) (λ f.
        decode_rest-round (suc f) (behind_start (b ∷ s)) (p.from_utf8_lossy (b ∷ s))
          (decode_one_word-encoded b s h all)
        ∙ rw (decode_rest-nil (suc f), utf8) (append-nil (b ∷ s)))

  decode_words-escaped :
      (b : ℕ) (s : Str)
      → is_unescaped b ≡ false
      → All IsByte (b ∷ s)
      → decode_words p (encode_word (b ∷ s)) ≡ encode_word (b ∷ s)
  decode_words-escaped b s h all = rw (encode_word-start (b ∷ s)) (
      decode_words-from (behind_start (b ∷ s)) (codes "=?" ++ behind_start (b ∷ s)) (λ f.
        decode_rest-skip f (behind_start (b ∷ s)) (decode_one_word-first b s h)
          (find-none_behind (b ∷ s) all)))

  -- The encoded word of a text is decoded to the text if the first byte needs no escape, and is left
  -- as it is, undecoded, if the first byte is escaped, for a text that the conversion from UTF-8
  -- leaves as it is.
  pub decode_words-encode_word :
      (b : ℕ) (s : Str)
      → All IsByte (b ∷ s)
      → p.from_utf8_lossy (b ∷ s) ≡ b ∷ s
      → decode_words p (encode_word (b ∷ s))
        ≡ (if is_unescaped b then b ∷ s else encode_word (b ∷ s))
  decode_words-encode_word b s all utf8 = elim (Bool-cases (is_unescaped b)) [
    | inl e ↦ rw e (decode_words-unescaped b s e all utf8)
    | inr e ↦ rw e (decode_words-escaped b s e all)
  ]
