-- ===== src/Autocrypt/Advertised.antt =====
-- The headers that a message gets on its way out (crates/jmapsmtp/src/autocrypt.rs).
use jmapsmtp.Prelude.{
  ℕ, Bool, true, some, [], ◌∷◌, ◌++◌, Str, codes, ◌==◌, not, ◌||◌, is_some, ◌≡◌, refl, sym, ap, ◌∙◌,
  arith, All, All-append, Bool-cases, inl, inr, append_assoc, append-nil, starts_with,
}
use jmapsmtp.CustomDomain.{all}
use jmapsmtp.Smtp.{crlf}
use jmapsmtp.Mime.{find}
use jmapsmtp.Autocrypt.{separator, inject_chat_version, inject_autocrypt}
use jmapsmtp.Autocrypt.Headers.{IsPlain, IsLine, find-insert_header}

abbrev is_plain : ℕ → Bool
is_plain c = not (c == 13 || c == 10)

All-is_plain : (s : Str) → all is_plain s ≡ true → All IsPlain s
All-is_plain [] h = tt
All-is_plain (c ∷ s) h = elim (Bool-cases (all is_plain s)) [
  | inl e ↦ (ground arith, All-is_plain s e)
  | inr e ↦ ground arith
]

-- The message has this body, behind headers that start with these.
abbrev pub Extends : Str → Str → Str → Type 0
Extends raw head body = (added : Str) × (find separator raw ≡ some (head ++ added, body))

inject_chat_version-Extends :
    (raw head body : Str)
    → find separator raw ≡ some (head, body)
    → Extends (inject_chat_version raw) head body
unfolding inject_chat_version
inject_chat_version-Extends raw head body h =
    elim (Bool-cases (
      is_some (find (10 ∷ codes "Chat-Version:") raw) || starts_with (codes "Chat-Version:") raw)) [
        | inl e ↦
            rw (inject_chat_version, e) ([], h ∙ ap (λ t. some (t, body)) (sym (append-nil head)))
        | inr e ↦
            rw (inject_chat_version, e)
              (
                crlf ++ codes "Chat-Version: 1.0",
                find-insert_header raw head body (codes "Chat-Version: 1.0")
                      (All-is_plain (codes "Chat-Version: 1.0") refl) h
                    ∙ ap (λ t. some (t, body)) (append_assoc head crlf (codes "Chat-Version: 1.0")),
              )
      ]

-- The header of the key, without its line end.
abbrev autocrypt_line : Str → Str → Str
autocrypt_line from key_data =
    codes "Autocrypt: addr=" ++ from ++ codes "; prefer-encrypt=mutual; keydata=" ++ key_data

autocrypt_line-IsLine :
    (from key_data : Str)
    → All IsPlain from
    → All IsPlain key_data
    → IsLine (autocrypt_line from key_data)
autocrypt_line-IsLine from key_data f k =
    All-append IsPlain
      (codes "Autocrypt: addr=" ++ from ++ codes "; prefer-encrypt=mutual; keydata=") key_data
      (All-append IsPlain (codes "Autocrypt: addr=" ++ from)
        (codes "; prefer-encrypt=mutual; keydata=")
        (All-append IsPlain (codes "Autocrypt: addr=") from
          (All-is_plain (codes "Autocrypt: addr=") refl) f)
        (All-is_plain (codes "; prefer-encrypt=mutual; keydata=") refl))
      k

inject_autocrypt-Extends :
    (raw head body from key_data : Str)
    → All IsPlain from
    → All IsPlain key_data
    → find separator raw ≡ some (head, body)
    → Extends (inject_autocrypt raw from key_data) head body
unfolding inject_autocrypt
inject_autocrypt-Extends raw head body from key_data f k h =
    let line = autocrypt_line from key_data in
    (
      crlf ++ line,
      find-insert_header raw head body line (autocrypt_line-IsLine from key_data f k) h
          ∙ ap (λ t. some (t, body)) (append_assoc head crlf line),
    )

-- A message that gets the header of a key and the mark of a chat keeps its body, and its headers stand
-- in front of what is added. The message has a separator, and neither the address nor the key has a line
-- feed or a carriage return.
pub inject_chat_version-inject_autocrypt :
    (raw head body from key_data : Str)
    → All IsPlain from
    → All IsPlain key_data
    → find separator raw ≡ some (head, body)
    → Extends (inject_chat_version (inject_autocrypt raw from key_data)) head body
inject_chat_version-inject_autocrypt raw head body from key_data f k h =
    let (first, e) = inject_autocrypt-Extends raw head body from key_data f k h in
    let (second, e') =
      inject_chat_version-Extends (inject_autocrypt raw from key_data) (head ++ first) body e in
    (first ++ second, e' ∙ ap (λ t. some (t, body)) (append_assoc head first second))
