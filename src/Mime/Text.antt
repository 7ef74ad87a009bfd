-- ===== src/Mime/Text.antt =====
-- crates/jmapserver/src/mime.rs: the text body of a message, and its attachments. A part is read by
-- the function that read the message, one level deeper; the fuel counts the levels.
use jmapsmtp.Prelude.{
  ℕ, zero, suc, Bool, true, false, Option, none, some, List, [], ◌∷◌, ◌++◌, Str, codes, ◌==◌, not,
  ◌&&◌, ◌||◌, if◌then◌else◌, is_empty, starts_with, eq_ignore_ascii_case, length, text_eq,
}
use jmapsmtp.Map
use jmapsmtp.Keys.{text_ord}
use jmapsmtp.Methods.Query.{contains}
use jmapsmtp.Mime.{
  Platform, Headers, Params, Part, get, parse_media_type, split_parts, split_message,
}
use jmapsmtp.Mime.Words.{decode_transfer, decode_transfer_bytes}
pub mod Lengths
pub mod Levels

-- `replace("\r\n", "\n")`.
unfoldable pub normalise_newlines : Str → Str
normalise_newlines [] = []
normalise_newlines (c ∷ []) = c ∷ []
normalise_newlines (c ∷ d ∷ s) =
    let joined = 10 ∷ normalise_newlines s in
    let kept = c ∷ normalise_newlines (d ∷ s) in if c == 13 && d == 10 then joined else kept

abbrev pub content_type : Part → Str
content_type part = get (codes "Content-Type") part.headers

abbrev pub transfer_encoding : Part → Str
transfer_encoding part = get (codes "Content-Transfer-Encoding") part.headers

abbrev pub disposition : Part → Str
disposition part = get (codes "Content-Disposition") part.headers

abbrev media_or_default : Option (Str × Params) → Str
media_or_default none = []
media_or_default (some (media, _)) = media

module _ (p : Platform) where
  unfoldable pub html_to_markdown : Str → Str
  unfolding normalise_newlines
  html_to_markdown html = p.unicode.trim (normalise_newlines html)

  abbrev pub media_of : Str → Str
  media_of ct = media_or_default (parse_media_type p ct)

  abbrev plain_text : Str → Str → Str
  plain_text cte body = normalise_newlines (decode_transfer p cte body)

  -- The loop of `multipart/encrypted`: the first part that holds an armored message.
  unfoldable pub armored_part : List Part → Str
  unfolding get parse_media_type normalise_newlines decode_transfer contains text_eq
  armored_part [] = []
  armored_part (part ∷ parts) =
      let media = media_of (content_type part) in
      let text = plain_text (transfer_encoding part) part.body in
      let later = armored_part parts in
      if text_eq media (codes "application/octet-stream")
        || text_eq media (codes "application/pgp-encrypted")
      then (if contains (codes "-----BEGIN PGP MESSAGE-----") text then text else later)
      else later

  abbrev pub multipart_text : (List Part → Str) → Str → Option Str → Str
  multipart_text loop body none = []
  multipart_text loop body (some boundary) = loop (split_parts p body boundary)

  -- The loop of the other multipart types, with the text of a nested part as a function.
  module _ (nested : Str → Str → Str → Str) where
    abbrev pub first_html : Str → Str → Str → Str → Str
    first_html fallback media cte body =
        if text_eq media (codes "text/html") && is_empty fallback
        then html_to_markdown (decode_transfer p cte body)
        else fallback

    unfoldable pub mixed_text : Str → List Part → Str
    unfolding get parse_media_type normalise_newlines decode_transfer html_to_markdown text_eq
        starts_with
    mixed_text fallback [] = fallback
    mixed_text fallback (part ∷ parts) =
        let ct = content_type part in
        let cte = transfer_encoding part in
        let media = media_of ct in
        let skipped = mixed_text fallback parts in
        let later = mixed_text (first_html fallback media cte part.body) parts in
        let inner = nested ct cte part.body in
        if is_empty ct
        then skipped
        else if text_eq media (codes "text/plain")
        then plain_text cte part.body
        else if starts_with (codes "multipart/") media
        then (if is_empty inner then later else inner)
        else later

    unfoldable pub text_of : Str → Str → Str → Str
    unfolding parse_media_type normalise_newlines decode_transfer html_to_markdown text_eq
        starts_with armored_part mixed_text split_parts
    text_of ct cte body =
        let raw = normalise_newlines (p.from_utf8_lossy body) in
        if is_empty ct then raw else elim (parse_media_type p ct) [
          | none ↦ raw
          | some (media, params) ↦
              let boundary = Map.lookup (codes "boundary") params in
              if text_eq media (codes "text/plain")
              then plain_text cte body
              else if text_eq media (codes "text/html")
              then html_to_markdown (decode_transfer p cte body)
              else if text_eq media (codes "multipart/encrypted")
              then multipart_text armored_part body boundary
              else if starts_with (codes "multipart/") media
              then multipart_text (mixed_text []) body boundary
              else []
        ]

  unfoldable pub extract_text : ℕ → Str → Str → Str → Str
  unfolding text_of
  extract_text zero ct cte body = []
  extract_text (suc levels) ct cte body = text_of (extract_text levels) ct cte body

  -- A part is shorter than the body that it is a part of.
  unfoldable pub extract_mime_text : Str → Str → Str → Str
  unfolding extract_text
  extract_mime_text ct cte body = extract_text (suc (length body)) ct cte body

pub record Attachment : Type 0 where
  pub filename : Str
  pub content_type : Str
  pub bytes : Str

abbrev or_else : Option Str → Option Str → Str
or_else (some name) other = name
or_else none (some name) = name
or_else none none = []

abbrev param_of : Str → Option (Str × Params) → Option Str
param_of key none = none
param_of key (some (_, params)) = Map.lookup key params

module _ (p : Platform) where
  -- A leaf part.
  unfoldable pub attachment_of : Str → Str → Str → Str → List Attachment
  unfolding parse_media_type eq_ignore_ascii_case decode_transfer_bytes
  attachment_of ct cte disp body =
      let parsed = parse_media_type p ct in
      elim (parse_media_type p disp) [
        | none ↦ []
        | some (kind, dparams) ↦
            if not (eq_ignore_ascii_case kind (codes "attachment"))
            then []
            else record {
              filename =
                  or_else (Map.lookup (codes "filename") dparams) (param_of (codes "name") parsed);
              content_type = media_or_default parsed;
              bytes = decode_transfer_bytes p cte body;
            }
              ∷ []
      ]

  module _ (nested : Str → Str → Str → Str → List Attachment) where
    unfoldable pub attachments_of_parts : List Part → List Attachment
    unfolding get
    attachments_of_parts [] = []
    attachments_of_parts (part ∷ parts) =
        nested (content_type part) (transfer_encoding part) (disposition part) part.body
        ++ attachments_of_parts parts

  unfoldable pub collect_attachments : ℕ → Str → Str → Str → Str → List Attachment
  unfolding parse_media_type starts_with split_parts attachments_of_parts attachment_of
  collect_attachments zero ct cte disp body = []
  collect_attachments (suc levels) ct cte disp body =
      if starts_with (codes "multipart/") (media_of p ct)
      then elim (param_of (codes "boundary") (parse_media_type p ct)) [
        | none ↦ []
        | some boundary ↦
            attachments_of_parts (collect_attachments levels) (split_parts p body boundary)
      ]
      else attachment_of ct cte disp body

  unfoldable pub extract_attachments : Str → List Attachment
  unfolding split_message collect_attachments get
  extract_attachments raw = elim (split_message p raw) [
    | none ↦ []
    | some (headers, body) ↦
        collect_attachments (suc (length body)) (get (codes "Content-Type") headers)
          (get (codes "Content-Transfer-Encoding") headers)
          (get (codes "Content-Disposition") headers) body
  ]
