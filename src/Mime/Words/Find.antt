-- ===== src/Mime/Words/Find.antt =====
-- The first delimiter of a text, and the delimiters of an encoded word
-- (crates/jmapserver/src/mime.rs).
use jmapsmtp.Prelude.{
  ℕ, ◌/◌, ◌%◌, ◌<◌, false, none, some, [], ◌∷◌, ◌++◌, Str, codes, ◌==◌, ==_iff, ◌≡◌, refl, arith,
  All, Bool-cases, inl, inr, strip_prefix,
}
use jmapsmtp.Mime.{find}
use jmapsmtp.Mime.Words.{is_plain, hex_upper, encode_bytes}
use jmapsmtp.Mime.Words.Bytes.{IsByte, IsWordByte, encode_byte-plain, encode_byte-escape}

-- A byte that does not start the needle is passed over.
pub find-pass :
    (b c : ℕ) (needle s before after : Str)
    → (b == c) ≡ false
    → find (b ∷ needle) s ≡ some (before, after)
    → find (b ∷ needle) (c ∷ s) ≡ some (c ∷ before, after)
unfolding find strip_prefix
find-pass b c needle s before after h e = rw (find, strip_prefix, h, e)

pub ==-flip : (a b : ℕ) → (a == b) ≡ false → (b == a) ≡ false
==-flip a b h = ground arith

-- The first `?=` of an encoded word is the one that ends it.
pub find-end : (w : Str) → All IsWordByte w → find (codes "?=") (w ++ codes "?=") ≡ some (w, [])
unfolding find strip_prefix
find-end [] h = refl
find-end (c ∷ w) h =
    find-pass b'?' c (b'=' ∷ []) (w ++ codes "?=") w [] (==-flip c b'?' h.0) (find-end w h.1)

pub find-prefix :
    (b : ℕ) (needle prefix s before after : Str)
    → All (λ c. (b == c) ≡ false) prefix
    → find (b ∷ needle) s ≡ some (before, after)
    → find (b ∷ needle) (prefix ++ s) ≡ some (prefix ++ before, after)
find-prefix b needle [] s before after h e = e
find-prefix b needle (c ∷ prefix) s before after h e =
    find-pass b c needle (prefix ++ s) (prefix ++ before) after h.0
      (find-prefix b needle prefix s before after h.1 e)

-- A first byte of the needle that the second does not follow.
pub find-start :
    (a b c : ℕ) (s before after : Str)
    → (b == c) ≡ false
    → find (a ∷ b ∷ []) (c ∷ s) ≡ some (before, after)
    → find (a ∷ b ∷ []) (a ∷ c ∷ s) ≡ some (a ∷ before, after)
find-start a b c s before after h e = elim (Bool-cases (a == a)) [
  | inl q ↦ unfold find strip_prefix in rw (find, strip_prefix, q, h, e)
  | inr q ↦ find-pass a a (b ∷ []) (c ∷ s) before after q e
]

pub find-word :
    (b : ℕ) (w : Str)
    → (b == b'=') ≡ false
    → All IsWordByte (b ∷ w)
    → find (codes "?=") (codes "utf-8?q?" ++ (b ∷ w) ++ codes "?=")
      ≡ some (codes "utf-8?q?" ++ b ∷ w, [])
find-word b w h all =
    let here =
      find-start b'?' b'=' b (w ++ codes "?=") (b ∷ w) [] (==-flip b b'=' h)
        (find-end (b ∷ w) all) in
    let q = find-pass b'?' b'q' (b'=' ∷ []) _ _ _ refl here in
    find-prefix b'?' (b'=' ∷ []) (codes "utf-8") _ _ _ (refl, (refl, (refl, (refl, (refl, tt)))))
      (find-start b'?' b'=' b'q' _ _ _ refl q)

pub find-none_pass :
    (b c : ℕ) (needle s : Str)
    → (b == c) ≡ false
    → find (b ∷ needle) s ≡ none
    → find (b ∷ needle) (c ∷ s) ≡ none
find-none_pass b c needle s h e = unfold find strip_prefix in rw (find, strip_prefix, h, e)

pub find-none_start :
    (a b c : ℕ) (s : Str)
    → (b == c) ≡ false
    → find (a ∷ b ∷ []) (c ∷ s) ≡ none
    → find (a ∷ b ∷ []) (a ∷ c ∷ s) ≡ none
find-none_start a b c s h e = elim (Bool-cases (a == a)) [
  | inl q ↦ unfold find strip_prefix in rw (find, strip_prefix, q, h, e)
  | inr q ↦ find-none_pass a a (b ∷ []) (c ∷ s) q e
]

pub find-none_prefix :
    (b : ℕ) (needle prefix s : Str)
    → All (λ c. (b == c) ≡ false) prefix
    → find (b ∷ needle) s ≡ none
    → find (b ∷ needle) (prefix ++ s) ≡ none
find-none_prefix b needle [] s h e = e
find-none_prefix b needle (c ∷ prefix) s h e =
    find-none_pass b c needle (prefix ++ s) h.0 (find-none_prefix b needle prefix s h.1 e)

pub hex_upper-ne :
    (n : ℕ) → n < 16 → ((b'=' == hex_upper n) ≡ false) × ((b'?' == hex_upper n) ≡ false)
hex_upper-ne n h = (ground arith, ground arith)

-- An encoded word has no `=?` behind its start.
pub find-none_word :
    (s : Str) → All IsByte s → find (codes "=?") (encode_bytes s ++ codes "?=") ≡ none
unfolding encode_bytes
find-none_word [] h = unfold find strip_prefix in refl
find-none_word (b ∷ s) h =
    let rest = find-none_word s h.1 in
    let t = encode_bytes s ++ codes "?=" in
    elim (Bool-cases (b == b' ')) [
      | inl e ↦ rw ((==_iff b b' ').0 e) (find-none_pass b'=' b'_' (b'?' ∷ []) t refl rest)
      | inr e ↦ elim (Bool-cases (is_plain b)) [
        | inl p ↦
            let (shape, _, eq, _) = encode_byte-plain b p in
            rw shape (find-none_pass b'=' b (b'?' ∷ []) t (==-flip b b'=' eq) rest)
        | inr p ↦
            let (high, query) = hex_upper-ne (b / 16) (omega arith) in
            let (low, _) = hex_upper-ne (b % 16) (omega arith) in
            rw (encode_byte-escape b e p) (
              find-none_start b'=' b'?' (hex_upper (b / 16)) (hex_upper (b % 16) ∷ t) query (
                find-none_pass b'=' (hex_upper (b / 16)) (b'?' ∷ []) (hex_upper (b % 16) ∷ t) high
                  (find-none_pass b'=' (hex_upper (b % 16)) (b'?' ∷ []) t low rest)))
      ]
    ]
