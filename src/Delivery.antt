-- ===== src/Delivery.antt =====
-- The way of an inbound message into the stores: `Delivery` of crates/jmapsmtp/src/delivery.rs, with
-- the ids of crates/jmapsmtp/src/handler.rs and `build_encrypted_multipart` of
-- crates/jmapsmtp/src/pgp.rs. The activity log and the notices to clients are lists in the state.
use jmapsmtp.Prelude.{
  ℕ, zero, suc, Bool, true, false, Option, none, some, List, [], ◌∷◌, ◌++◌, Str, codes, not, ◌&&◌,
  ◌==◌, if◌then◌else◌, is_empty, any, replace_byte, text_eq, length, take, drop, keep_if, join,
}
use jmapsmtp.Result.{Result, ok, err}
use jmapsmtp.Map
use jmapsmtp.Keys.{text_ord}
use jmapsmtp.JmapTypes.{Email, Mailbox, BodyValue}
use jmapsmtp.Accounts.{AccountStore, Accounts, resolve}
use jmapsmtp.Store.{Store, Io}
use jmapsmtp.Store.Messages.{put}
use jmapsmtp.Store.Mailboxes.{mailboxes}
use jmapsmtp.Methods.Query.{contains}
use jmapsmtp.CustomDomain.{all}
use jmapsmtp.Hooks.{within_storage_cap, seal_stored_body}
use jmapsmtp.Mime.{Platform}
use jmapsmtp.Mime.Build.{message_body}
use jmapsmtp.Mime.Message.{parse_mime_email}
use jmapsmtp.Mime.Text.{Attachment, extract_attachments}
pub mod Stored
pub mod Filing

-- What a delivery asks of the world: the key of an account, encryption to it and the encoder of
-- base64 from the crates, the boundary that is drawn, the cap and the size of an account's directory,
-- and for each recipient in turn the clock in milliseconds and the outcome of the writes.
pub record World : Type 0 where
  pub platform : Platform
  pub account_key : Str → Option Str
  pub encrypt_inline : Str → Str → Option Str
  pub encode_base64 : Str → Str
  pub boundary : Str
  pub storage_cap : ℕ
  pub used : AccountStore Store → ℕ
  pub now : Str
  pub millis : ℕ → Str
  pub io : ℕ → Io

pub record Activity : Type 0 where
  pub account : Str
  pub peer : Str
  pub bytes : ℕ
  pub succeeded : Bool

pub record Relay : Type 0 where
  pub accounts : Accounts Store
  pub activity : List Activity
  pub wake_ups : ℕ
  pub pushes : List Str

unfoldable pub make_mailbox_id : Str → Str
unfolding replace_byte
make_mailbox_id addr = codes "mbx-" ++ replace_byte b'/' b'~' addr

unfoldable pub make_message_id : Str → Str → Str → Str
unfolding replace_byte
make_message_id message_id addr millis =
    if is_empty message_id
    then codes "msg-" ++ replace_byte b'/' b'-' addr ++ codes "-" ++ millis
    else codes "msg-" ++ replace_byte b'/' b'_' message_id

-- The id of the first mailbox whose role is the inbox, or the one that the address gives.
unfoldable pub inbox_of : Str → List Mailbox → Str
unfolding make_mailbox_id text_eq
inbox_of email [] = make_mailbox_id email
inbox_of email (mb ∷ mbs) =
    let later = inbox_of email mbs in if text_eq mb.role (codes "inbox") then mb.id else later

abbrev first_of : List Str → Str
first_of [] = []
first_of (x ∷ xs) = x

-- Lines of 76 characters; a round takes a line, so that a round for each byte is enough.
unfoldable pub wrap_lines : ℕ → Str → List Str
wrap_lines zero s = []
wrap_lines (suc fuel) [] = []
wrap_lines (suc fuel) (c ∷ s) = take 76 (c ∷ s) ∷ wrap_lines fuel (drop 76 (c ∷ s))

abbrev pub line_end : Str
line_end = 13 ∷ 10 ∷ []

unfoldable pub wrap_base64 : Str → Str
unfolding wrap_lines join
wrap_base64 s = join line_end (wrap_lines (length s) s)

module _ (w : World) where
  abbrev trim : Str → Str
  trim = w.platform.unicode.trim

  unfoldable pub attachment_parts : List Attachment → Str
  unfolding wrap_base64
  attachment_parts [] = []
  attachment_parts (a ∷ attachments) =
      codes "--"
      ++ w.boundary
      ++ line_end
      ++ codes "Content-Type: "
      ++ (if is_empty a.content_type then codes "application/octet-stream" else a.content_type)
      ++ line_end
      ++ codes "Content-Disposition: attachment; filename=\""
      ++ keep_if (λ c. not (c == b'"')) a.filename
      ++ codes "\""
      ++ line_end
      ++ codes "Content-Transfer-Encoding: base64"
      ++ line_end
      ++ line_end
      ++ wrap_base64 (w.encode_base64 a.bytes)
      ++ line_end
      ++ attachment_parts attachments

  unfoldable pub build_encrypted_multipart : Str → List Attachment → Str
  unfolding attachment_parts
  build_encrypted_multipart text attachments =
      codes "Content-Type: multipart/mixed; boundary=\""
      ++ w.boundary
      ++ codes "\""
      ++ line_end
      ++ line_end
      ++ codes "--"
      ++ w.boundary
      ++ line_end
      ++ codes "Content-Type: text/plain; charset=utf-8"
      ++ line_end
      ++ codes "Content-Transfer-Encoding: 8bit"
      ++ line_end
      ++ line_end
      ++ text
      ++ line_end
      ++ attachment_parts attachments
      ++ codes "--"
      ++ w.boundary
      ++ codes "--"

  unfoldable pub carries_nothing : Email → Bool
  carries_nothing m =
      is_empty m.from
      && is_empty m.sender
      && is_empty m.to
      && is_empty m.cc
      && is_empty (trim m.subject)
      && is_empty m.message_id
      && all (λ v. is_empty (trim v.value)) (Map.values m.body_values)

  abbrev sealed : Str → Option Str → Email → Email
  sealed plaintext none m = m
  sealed plaintext (some key) m = elim (w.encrypt_inline key plaintext) [
    | none ↦ m
    | some ciphertext ↦ seal_stored_body (w.platform.from_utf8_lossy ciphertext) m
  ]

  unfoldable pub seal_inbound : Str → Str → Email → Email
  unfolding message_body contains extract_attachments build_encrypted_multipart seal_stored_body
  seal_inbound dir raw m =
      let body = message_body m in
      let attachments = extract_attachments w.platform raw in
      let plaintext =
        if is_empty attachments then body else build_encrypted_multipart body attachments in
      if is_empty body
      then m
      else if contains (codes "-----BEGIN PGP MESSAGE-----") body
      then record m { keywords = Map.insert (codes "$e2e") true m.keywords }
      else sealed plaintext (w.account_key dir) m

  -- The message that is stored.
  unfoldable pub filed : ℕ → AccountStore Store → Str → Email → Email
  unfolding make_message_id inbox_of mailboxes seal_inbound
  filed n account raw m = seal_inbound account.dir raw (record m {
    id = make_message_id (first_of m.message_id) account.email (w.millis n);
    received_at = some w.now;
    mailbox_ids = (inbox_of account.email (mailboxes account.store), true) ∷ [];
  })

  -- `store_message`; `false` stands for its errors.
  unfoldable pub store_message : ℕ → AccountStore Store → Str → AccountStore Store × Bool
  unfolding within_storage_cap parse_mime_email carries_nothing filed put
  store_message n account raw = elim (within_storage_cap w.storage_cap (w.used account)) [
    | err e ↦ (account, false)
    | ok _ ↦ elim (parse_mime_email w.platform raw w.now) [
      | none ↦ (account, false)
      | some m ↦
          let (store, done) = put (w.io n) (filed n account raw m) account.store in
          if carries_nothing m then (account, false) else (record account { store = store }, done)
    ]
  ]

  -- The store of the account that an address leads to.
  unfoldable pub replace_account : Str → AccountStore Store → Accounts Store → Accounts Store
  replace_account address account t =
      elim (Map.lookup (w.platform.unicode.to_lowercase address) t.aliases) [
        | none ↦ t
        | some primary ↦ record t { stores = Map.insert primary account t.stores }
      ]

  abbrev pub find_account : Str → Accounts Store → Option (AccountStore Store)
  find_account = resolve w.platform.unicode.to_lowercase

  abbrev activity_of : AccountStore Store → Str → Str → Bool → Activity
  activity_of account from raw done = record {
    account = account.email;
    peer = from;
    bytes = length raw;
    succeeded = done;
  }

  -- One round of the loop of `deliver`.
  unfoldable pub deliver_to : ℕ → Str → Str → Str → Relay → Relay
  unfolding resolve store_message replace_account
  deliver_to n from raw rcpt r = elim (find_account rcpt r.accounts) [
    | none ↦ r
    | some account ↦
        let (account', done) = store_message n account raw in
        record r {
          accounts = replace_account rcpt account' r.accounts;
          activity = r.activity ++ activity_of account from raw done ∷ [];
        }
  ]

  unfoldable pub deliver_all : ℕ → Str → Str → List Str → Relay → Relay
  unfolding deliver_to
  deliver_all n from raw [] r = r
  deliver_all n from raw (rcpt ∷ rcpts) r =
      deliver_all (suc n) from raw rcpts (deliver_to n from raw rcpt r)

  -- The accounts that are pushed to, each once.
  unfoldable pub pushed : Accounts Store → List Str → List Str → List Str
  unfolding resolve text_eq
  pushed t [] seen = seen
  pushed t (rcpt ∷ rcpts) seen = pushed t rcpts (elim (find_account rcpt t) [
    | none ↦ seen
    | some account ↦
        if any (λ e. text_eq e account.email) seen then seen else seen ++ account.email ∷ []
  ])

  unfoldable pub deliver : Str → List Str → Str → Relay → Relay
  unfolding deliver_all pushed
  deliver from rcpts raw r =
      let r' = deliver_all 0 from raw rcpts r in
      record r' { wake_ups = suc r'.wake_ups; pushes = r'.pushes ++ pushed r'.accounts rcpts [] }
