-- ===== src/Examples/Inbound.antt =====
-- A message that is delivered to an account.
use jmapsmtp.Prelude.{none, some, [], ◌∷◌, Str, codes, ◌≡◌, refl, trim, text_compare}
use jmapsmtp.Map
use jmapsmtp.Keys.{same}
use jmapsmtp.JmapTypes.{Email}
use jmapsmtp.Accounts.{AccountStore, resolve}
use jmapsmtp.Store.{Store, empty_store, all_written}
use jmapsmtp.Hooks.{within_storage_cap}
use jmapsmtp.Smtp.Payload.{strip_last}
use jmapsmtp.Mime.Message.{message_of, parse_mime_email}
use jmapsmtp.Examples.Letters.{platform}
use jmapsmtp.Delivery.{World, Relay, carries_nothing, deliver, find_account}
use jmapsmtp.Delivery.Filing.{deliver-filed, HasMessage}

abbrev pub world : World
world = record {
  platform = platform;
  account_key = λ dir. none;
  encrypt_inline = λ key plaintext. some plaintext;
  encode_base64 = λ s. s;
  boundary = codes "b";
  storage_cap = 100;
  used = λ account. 3;
  now = codes "2026-01-01T00:00:00Z";
  millis = λ n. codes "5";
  io = λ n. all_written;
}

abbrev pub account : Str → AccountStore Store
account email = record {
  email = email;
  domain = codes "x";
  localpart = [];
  dir = [];
  store = empty_store;
}

abbrev pub relay : Relay
relay = record {
  accounts = record {
    stores = (codes "a@x", account (codes "a@x")) ∷ (codes "b@x", account (codes "b@x")) ∷ [];
    aliases = (codes "a@x", codes "a@x") ∷ (codes "b@x", codes "b@x") ∷ [];
  };
  activity = [];
  wake_ups = 0;
  pushes = [];
}

abbrev mail : Str
mail = codes "From: c@y\nMessage-Id: <1@y>\n\nhello"

abbrev parsed : Email
parsed =
    message_of platform ((codes "From", codes "c@y") ∷ (codes "Message-Id", codes "<1@y>") ∷ [])
      (codes "hello") (codes "2026-01-01T00:00:00Z")

deliver-filed_example :
    ((s : Store) × (find_account world
          (codes "a@x")
          (deliver world (codes "c@y") (codes "a@x" ∷ []) mail relay).accounts
        ≡ some (record (account (codes "a@x")) { store = s }))
      × HasMessage world 0 (account (codes "a@x")) mail parsed s)
    × (find_account world
          (codes "b@x")
          (deliver world (codes "c@y") (codes "a@x" ∷ []) mail relay).accounts
        ≡ find_account world (codes "b@x") relay.accounts)
unfolding resolve Map.lookup same text_compare within_storage_cap parse_mime_email carries_nothing
    message_of trim strip_last
deliver-filed_example =
    deliver-filed world (codes "c@y") mail (codes "a@x") (codes "b@x") [] relay
      (account (codes "a@x")) parsed refl refl refl refl refl tt ((λ e. cc), tt)
