-- ===== src/Zbase32/RoundTrip.antt =====
-- What is encoded is decoded (crates/jmapserver/src/zbase32.rs).
use jmapsmtp.Prelude.{
  ℕ, suc, ◌+◌, ◌*◌, ◌-◌, ◌/◌, ◌%◌, ◌^◌, ◌<◌, true, false, some, [], ◌∷◌, Str, ◌≡◌, refl, arith, All,
  ◌==◌, leb, get_elem?, length, ap, ◌∙◌,
}
use jmapsmtp.Base58.{position, char_or}
use jmapsmtp.Base58.Positions.{checked, position-checked}
use jmapsmtp.Zbase32.{alphabet, symbol, emit, encode_from, encode, and_byte, decode_from, decode}

-- The character of five bits.
abbrev letter : ℕ → ℕ
letter i = char_or (get_elem? alphabet i)

checked_all : checked letter alphabet 32 ≡ true
unfolding checked position
checked_all = refl

position-letter : (i : ℕ) → i < 32 → position (letter i) alphabet ≡ some i
position-letter i h = position-checked letter alphabet 32 i checked_all h

-- A character that does not complete a byte.
decode_from-more :
    (i bits value room : ℕ) (s : Str)
    → i < 32
    → leb 8 (bits + 5) ≡ false
    → decode_from (letter i ∷ s) bits value room
      ≡ decode_from s (bits + 5) (value * 32 % 2 ^ 32 + i) room
unfolding decode_from
decode_from-more i bits value room s h few = rw (decode_from, position-letter i h, few) refl

-- A character that completes the byte `b`, while one is wanted.
decode_from-byte :
    (i bits value room b : ℕ) (s : Str)
    → i < 32
    → leb 8 (bits + 5) ≡ true
    → (value * 32 % 2 ^ 32 + i) / 2 ^ (bits - 3) % 256 ≡ b
    → decode_from (letter i ∷ s) bits value (suc room)
      ≡ and_byte b (decode_from s (bits - 3) (value * 32 % 2 ^ 32 + i) room)
unfolding decode_from
decode_from-byte i bits value room b s h enough e =
    let wanted : (suc room == 0) ≡ false = ground arith in
    let left : suc room - 1 ≡ room = omega arith in
    rw (decode_from, position-letter i h, enough, e, wanted, left) refl

-- Between two bytes, nothing is pending: what is left is decoded.
abbrev IsStart : Str → Type 0
IsStart bytes =
    (out in_ : ℕ) → decode_from (encode_from bytes 0 out) 0 in_ (length bytes) ≡ some bytes

-- `k` bits of the byte `last` are still to be written, and the others are read: `low` is 2 ^ k, and
-- `high` is 2 ^ (8 - k).
abbrev IsPending : ℕ → ℕ → ℕ → Str → Type 0
IsPending k low high bytes =
    (out in_ last : ℕ)
    → last < 256
    → out % low ≡ last % low
    → in_ % high ≡ last / low
    → decode_from (encode_from bytes k out) (8 - k) in_ (suc (length bytes)) ≡ some (last ∷ bytes)

start : (b : ℕ) (bytes : Str) → b < 256 → IsPending 3 8 32 bytes → IsStart (b ∷ bytes)
unfolding encode_from emit symbol
start b bytes h k = λ out in_.
    let v = out * 256 % 2 ^ 32 + b in
    decode_from-more (v / 2 ^ 3 % 32) 0 in_ (suc (length bytes)) (encode_from bytes 3 v)
      (omega arith) refl
    ∙ k v (in_ * 32 % 2 ^ 32 + v / 2 ^ 3 % 32) b h (omega arith) (omega arith)

pending3 : (b : ℕ) (bytes : Str) → b < 256 → IsPending 1 2 128 bytes → IsPending 3 8 32 (b ∷ bytes)
unfolding encode_from emit symbol
pending3 b bytes h k = λ out in_ last l low high.
    let v = out * 256 % 2 ^ 32 + b in
    let first = v / 2 ^ 6 % 32 in
    let second = v / 2 ^ 1 % 32 in
    let read = in_ * 32 % 2 ^ 32 + first in
    decode_from-byte first 5 in_ (suc (length bytes)) last (letter second ∷ encode_from bytes 1 v)
      (omega arith) refl (omega arith)
    ∙ ap (and_byte last) (
        decode_from-more second 2 read (suc (length bytes)) (encode_from bytes 1 v) (omega arith)
          refl
        ∙ k v (read * 32 % 2 ^ 32 + second) b h (omega arith) (omega arith))

pending1 : (b : ℕ) (bytes : Str) → b < 256 → IsPending 4 16 16 bytes → IsPending 1 2 128 (b ∷ bytes)
unfolding encode_from emit symbol
pending1 b bytes h k = λ out in_ last l low high.
    let v = out * 256 % 2 ^ 32 + b in
    let first = v / 2 ^ 4 % 32 in
    let read = in_ * 32 % 2 ^ 32 + first in
    decode_from-byte first 7 in_ (suc (length bytes)) last (encode_from bytes 4 v) (omega arith)
      refl (omega arith)
    ∙ ap (and_byte last) (k v read b h (omega arith) (omega arith))

pending4 : (b : ℕ) (bytes : Str) → b < 256 → IsPending 2 4 64 bytes → IsPending 4 16 16 (b ∷ bytes)
unfolding encode_from emit symbol
pending4 b bytes h k = λ out in_ last l low high.
    let v = out * 256 % 2 ^ 32 + b in
    let first = v / 2 ^ 7 % 32 in
    let second = v / 2 ^ 2 % 32 in
    let read = in_ * 32 % 2 ^ 32 + first in
    decode_from-byte first 4 in_ (suc (length bytes)) last (letter second ∷ encode_from bytes 2 v)
      (omega arith) refl (omega arith)
    ∙ ap (and_byte last) (
        decode_from-more second 1 read (suc (length bytes)) (encode_from bytes 2 v) (omega arith)
          refl
        ∙ k v (read * 32 % 2 ^ 32 + second) b h (omega arith) (omega arith))

pending2 : (b : ℕ) (bytes : Str) → b < 256 → IsStart bytes → IsPending 2 4 64 (b ∷ bytes)
unfolding encode_from emit symbol
pending2 b bytes h k = λ out in_ last l low high.
    let v = out * 256 % 2 ^ 32 + b in
    let first = v / 2 ^ 5 % 32 in
    let second = v / 2 ^ 0 % 32 in
    let read = in_ * 32 % 2 ^ 32 + first in
    decode_from-byte first 6 in_ (suc (length bytes)) last (letter second ∷ encode_from bytes 0 v)
      (omega arith) refl (omega arith)
    ∙ ap (and_byte last) (
        decode_from-byte second 3 read (length bytes) b (encode_from bytes 0 v) (omega arith) refl
          (omega arith)
        ∙ ap (and_byte b) (k v (read * 32 % 2 ^ 32 + second)))

-- Every number of bits that may be pending.
abbrev IsRead : Str → Type 0
IsRead bytes =
    IsStart bytes
    × IsPending 3 8 32 bytes
    × IsPending 1 2 128 bytes
    × IsPending 4 16 16 bytes
    × IsPending 2 4 64 bytes

IsRead-end : IsRead []
unfolding encode_from decode_from
IsRead-end = (
  λ out in_. refl,
  λ out in_ last l low high.
      decode_from-byte (out * 2 ^ 2 % 2 ^ 32 % 32) 5 in_ 0 last [] (omega arith) refl (omega arith),
  λ out in_ last l low high.
      decode_from-byte (out * 2 ^ 4 % 2 ^ 32 % 32) 7 in_ 0 last [] (omega arith) refl (omega arith),
  λ out in_ last l low high.
      decode_from-byte (out * 2 ^ 1 % 2 ^ 32 % 32) 4 in_ 0 last [] (omega arith) refl (omega arith),
  λ out in_ last l low high.
      decode_from-byte (out * 2 ^ 3 % 2 ^ 32 % 32) 6 in_ 0 last [] (omega arith) refl (omega arith),
)

decode_from-IsRead : (bytes : Str) → All (λ b. b < 256) bytes → IsRead bytes
decode_from-IsRead [] h = IsRead-end
decode_from-IsRead (b ∷ bytes) h =
    let (k0, k3, k1, k4, k2) = decode_from-IsRead bytes h.1 in
    (
      start b bytes h.0 k3,
      pending3 b bytes h.0 k1,
      pending1 b bytes h.0 k4,
      pending4 b bytes h.0 k2,
      pending2 b bytes h.0 k0,
    )

-- Bytes are decoded from their encoding as they were, if as many are asked for as there are.
pub decode-encode_bytes :
    (bytes : Str) → All (λ b. b < 256) bytes → decode (encode bytes) (length bytes) ≡ some bytes
unfolding decode encode
decode-encode_bytes bytes h = (decode_from-IsRead bytes h).0 0 0
