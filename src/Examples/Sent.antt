-- ===== src/Examples/Sent.antt =====
-- A message of two parts.
use jmapsmtp.Prelude.{false, [], ◌∷◌, Str, codes}
use jmapsmtp.Keys.{text_ord}
use jmapsmtp.JmapTypes.{Email, empty_email, BodyPart, body_part, no_parts, BodyValue}

abbrev part : Str → BodyPart
part id = body_part id [] 0 [] [] [] [] [] [] [] [] no_parts

abbrev clear : BodyValue
clear = record { value = codes "secret"; is_encoding_problem = false; is_truncated = false }

abbrev pub email : Email
email = record empty_email {
  body_values = (codes "1", clear) ∷ (codes "2", clear) ∷ [];
  text_body = part (codes "1") ∷ [];
  html_body = part (codes "2") ∷ [];
}
