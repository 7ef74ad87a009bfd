-- ===== src/Examples/Submitted.antt =====
-- A message on its way out.
use jmapsmtp.Prelude.{
  true, none, some, [], ◌∷◌, ◌++◌, Str, codes, ◌≡◌, refl, not, ◌||◌, any, strip_prefix,
  text_compare, trim, to_ascii_lowercase,
}
use jmapsmtp.Result.{ok, err}
use jmapsmtp.Map
use jmapsmtp.Keys.{text_ord}
use jmapsmtp.JmapTypes.{Email}
use jmapsmtp.Store.{all_written, empty_store}
use jmapsmtp.Store.Messages.{get}
use jmapsmtp.Hooks.{Envelope, reply_only_exempt}
use jmapsmtp.Mime.{find}
use jmapsmtp.Mime.Build.{message_body}
use jmapsmtp.Methods.Query.{contains}
use jmapsmtp.Smtp.Errors
use jmapsmtp.Queue.{working}
use jmapsmtp.Autocrypt.{separator, inject_chat_version, inject_autocrypt}
use jmapsmtp.Autocrypt.Advertised.{Extends, inject_chat_version-inject_autocrypt}
use jmapsmtp.Outbound.{Wire, wire_message, send}
use jmapsmtp.Outbound.Held.{IsAccounted, send-IsAccounted}
use jmapsmtp.Submission.{
  Desk, Office, SendTask, on_submit_email, admitted_envelope, stored_copy, finish_send,
}
use jmapsmtp.Submission.Sealed.{IsSealedCopy, on_submit_email-IsSealedCopy}
use jmapsmtp.Submission.Allowed.{known_to, on_submit_email-allowed}
use jmapsmtp.Hooks.Sealing.{is_unknown}
use jmapsmtp.Examples.Sent.{email}
use jmapsmtp.Examples.Letters.{platform, letter, noon}

abbrev raw : Str
raw = codes "To: c" ++ separator ++ codes "hello"

inject_chat_version-inject_autocrypt_example :
    Extends
      (inject_chat_version (inject_autocrypt raw (codes "a@x") (codes "key")))
      (codes "To: c")
      (codes "hello")
unfolding find strip_prefix
inject_chat_version-inject_autocrypt_example =
    inject_chat_version-inject_autocrypt raw (codes "To: c") (codes "hello") (codes "a@x")
      (codes "key") ((refl, refl), ((refl, refl), ((refl, refl), tt)))
      ((refl, refl), ((refl, refl), ((refl, refl), tt))) refl

-- A relay whose exchanger is down.
abbrev wire : Wire
wire = record {
  platform = platform;
  to_datetime = λ s. none;
  from_utf8 = λ s. some s;
  sha1 = λ s. s;
  encode_base64 = λ s. s;
  hostname = codes "x";
  now = noon;
  random_hex = codes "00";
  account_key = λ dir. some (codes "key");
  serialize_public_key = λ key. some key;
  domain_key = λ dir. none;
  sign = λ raw key domain selector. raw;
  domains = [];
  deliver = λ from to raw. err (Errors.io (codes "down"));
  disk = working;
  queue_id = codes "1";
  scheduled = 0;
  queued_at = 0;
}

abbrev envelope : Envelope
envelope = record {
  mail_from = some (record { email = codes "a@x"; parameters = none });
  rcpt_to = record { email = codes "c@y"; parameters = none } ∷ [];
}

send-IsAccounted_example :
    IsAccounted wire
      (codes "a@x")
      (codes "c@y" ∷ [])
      (wire_message wire (codes "x/a") (codes "a@x") letter).0
      []
      (send wire (codes "x/a") letter envelope [])
send-IsAccounted_example = send-IsAccounted wire (codes "x/a") letter envelope [] refl

abbrev desk : Desk
desk = record {
  wire = wire;
  storage_cap = 0;
  used = λ dir. 0;
  reply_only_outbound = true;
  exempt_senders = codes "x" ∷ [];
  encrypt_inline = λ key s. some (codes "sealed");
  io = all_written;
  write_error = codes "disk";
  new_id = codes "srv-1";
  new_message_id = λ domain. codes "1@x";
  received_at = codes "noon";
}

abbrev office : Office
office = record {
  account = record {
    email = codes "a@x";
    domain = codes "x";
    localpart = codes "a";
    dir = codes "x/a";
    store = empty_store;
  };
  queue = [];
  activity = [];
  smtp_sent = 0;
  smtp_failed = 0;
  wake_ups = 0;
}

abbrev note : Email
note = record email { id = codes "m1"; from = letter.from }

admitted : admitted_envelope desk office.account note envelope ≡ ok envelope
unfolding admitted_envelope to_ascii_lowercase trim
admitted = refl

on_submit_email-IsSealedCopy_example :
    ((task : SendTask) × ((on_submit_email desk note envelope office).1 ≡ ok task)
      × (task.outbound ≡ note)
      × (task.envelope ≡ envelope))
    × ((kept : Email) × (get note.id (on_submit_email desk note envelope office).0.account.store
          ≡ some kept)
        × IsSealedCopy desk note (codes "sealed") kept)
unfolding message_body contains strip_prefix Map.lookup text_compare
on_submit_email-IsSealedCopy_example =
    on_submit_email-IsSealedCopy desk (codes "key") (codes "sealed") note envelope envelope office
      admitted refl refl refl refl refl

abbrev task : SendTask
task = record {
  outbound = note;
  stored = stored_copy desk (codes "x/a") note;
  envelope = envelope;
  body = message_body note;
}

submitted : (on_submit_email desk note envelope office).1 ≡ ok task
unfolding on_submit_email admitted_envelope to_ascii_lowercase trim
submitted = refl

on_submit_email-allowed_example :
    (not true
      || reply_only_exempt platform.unicode (codes "x" ∷ []) (codes "a@x")
      || not (any (is_unknown platform.unicode (known_to desk office.account)) envelope.rcpt_to))
    ≡ true
on_submit_email-allowed_example = on_submit_email-allowed desk note envelope office task submitted

-- The message is not lost: the queue holds it, and neither counter moves.
deferred : (finish_send desk task office).smtp_failed ≡ 0
unfolding finish_send send wire_message
deferred = refl
