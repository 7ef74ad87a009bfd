-- ===== src/Smtp/Errors.antt =====
-- The failures of a send: `SendError` of crates/jmapsmtp/src/smtp_out.rs and its text. An
-- `io::Error` is its text.
use jmapsmtp.Prelude.{Str, codes, ◌++◌}
use jmapsmtp.Smtp.{Unicode}

pub data SendError : Type 0 where
  dial : Str → Str → SendError
  io : Str → SendError
  rejected : Str → Str → SendError
  no_recipients : SendError
  no_mx : Str → SendError
  invalid_recipient : Str → SendError

-- `Display`.
unfoldable pub to_string : Unicode → SendError → Str
to_string u (dial target e) = codes "dial " ++ target ++ codes ": " ++ e
to_string u (io e) = e
to_string u (rejected command reply) = command ++ codes ": " ++ reply
to_string u no_recipients = codes "no recipients"
to_string u (no_mx domain) = codes "no MX for " ++ domain
to_string u (invalid_recipient addr) = codes "invalid recipient address: " ++ u.debug addr
