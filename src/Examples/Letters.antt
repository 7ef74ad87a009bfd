-- ===== src/Examples/Letters.antt =====
-- Messages that are written and read: encoded words, nested parts, envelopes and headers.
use jmapsmtp.Prelude.{
  false, none, some, [], ◌∷◌, Str, codes, ◌≡◌, refl, arith, text_compare, map, trim,
}
use jmapsmtp.Keys.{same}
use jmapsmtp.Map
use jmapsmtp.Smtp.Payload.{strip_last}
use jmapsmtp.JmapTypes.{Email, empty_email, Address}
use jmapsmtp.Examples.Ascii.{ascii}
use jmapsmtp.Mime.{Platform, find, split_parts, split_message}
use jmapsmtp.Mime.Words.{decode_words, encode_word}
use jmapsmtp.Mime.Words.RoundTrip.{decode_words-encode_word}
use jmapsmtp.Mime.Text.{extract_text, extract_mime_text}
use jmapsmtp.Mime.Text.Lengths.{find-length}
use jmapsmtp.Mime.Text.Levels.{parts_within, extract_text-extract_mime_text}
use jmapsmtp.Mime.Address.{build_envelope}
use jmapsmtp.Mime.Address.Recipients.{build_envelope-envelope_of, envelope_of}
use jmapsmtp.Mime.Build.{DateTime, headers_for, message_id_for, build_rfc5322, message_body}
use jmapsmtp.Mime.Build.Reading.{split_message-build_rfc5322, trimmed}

abbrev pub platform : Platform
platform = record {
  unicode = ascii;
  from_utf8_lossy = λ s. s;
  split_whitespace = λ s. s ∷ [];
  base64 = λ s. none;
  rfc2822 = λ s. none;
}

-- "café", and "é".
decode_words-encode_word_example :
    decode_words platform (encode_word (99 ∷ 97 ∷ 102 ∷ 195 ∷ 169 ∷ []))
    ≡ (99 ∷ 97 ∷ 102 ∷ 195 ∷ 169 ∷ [])
decode_words-encode_word_example =
    decode_words-encode_word platform 99 (97 ∷ 102 ∷ 195 ∷ 169 ∷ []) (omega arith) refl

accent_lost : decode_words platform (encode_word (195 ∷ 169 ∷ [])) ≡ codes "=?utf-8?q?=C3=A9?="
unfolding decode_words encode_word text_compare
accent_lost = refl

abbrev two_parts : Str
two_parts = codes "--b\nContent-Type: text/plain\n\nhello\n--b--\n"

extract_text-extract_mime_text_example :
    (extract_text platform 99 (codes "multipart/mixed; boundary=b") [] two_parts
      ≡ extract_mime_text platform (codes "multipart/mixed; boundary=b") [] two_parts)
    × (parts_within platform 77 (codes "b") (find (codes "--b") two_parts)
        ≡ split_parts platform two_parts (codes "b"))
extract_text-extract_mime_text_example =
    extract_text-extract_mime_text platform (codes "multipart/mixed; boundary=b") [] two_parts
      (codes "b") 99 77 (omega arith)
      (λ preamble rest e. omega (arith, find-length (codes "--b") two_parts preamble rest e))

nested_text :
    extract_mime_text platform (codes "multipart/mixed; boundary=b") [] two_parts ≡ codes "hello"
unfolding extract_mime_text text_compare same trim Map.lookup Map.insert strip_last
nested_text = refl

abbrev address : Str → Address
address email = record { name = []; email = email }

abbrev pub letter : Email
letter = record empty_email {
  from = address (codes "a@x") ∷ [];
  to = address (codes "b@x") ∷ address [] ∷ [];
  cc = address (codes "b@x") ∷ address (codes "c@x") ∷ [];
  subject = codes "Lunch";
  message_id = codes "<1@x>" ∷ [];
}

-- The envelope law at a letter that names one recipient twice.
build_envelope-envelope_of_example : build_envelope letter ≡ envelope_of letter
build_envelope-envelope_of_example = build_envelope-envelope_of letter

abbrev pub noon : DateTime
noon = record {
  weekday = 0;
  day = 2;
  month = 1;
  year = 2006;
  hour = 12;
  minute = 0;
  second = 0;
  is_negative = false;
  offset_hours = 0;
  offset_minutes = 0;
  nanos = codes "1136203200000000000";
}

split_message-build_rfc5322_example :
    split_message platform (build_rfc5322 platform (λ s. none) letter (codes "x") noon []).0
    ≡ some (
      map (trimmed platform) (headers_for platform (λ s. none) letter (codes "1@x") noon),
      message_body letter,
    )
unfolding headers_for message_id_for
split_message-build_rfc5322_example =
    split_message-build_rfc5322 platform (λ s. none) letter (codes "x") noon [] (search) refl
