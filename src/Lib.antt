-- ===== src/Lib.antt =====
-- A verification library for the SMTP and JMAP relay.
--
-- The relay takes mail over SMTP, keeps it in one store for each account, serves the stores over
-- JMAP, and sends mail out over SMTP with a queue for what cannot be sent yet. A device of an account
-- logs in by signing a nonce, and the token that it gets opens the account until it ends or the device
-- is removed.
--
-- Prelude, Keys, Map, Result, Words, Decimal: tests, lists, texts as lists of bytes, the ordered
-- maps and sets of the standard library as association lists and lists in the order of their keys,
-- `Result`, machine integers and their texts. A machine integer keeps its wrap-around; an `i64` is
-- its bit pattern below 2 ^ 64.
--
-- JmapTypes: the records of crates/jmap-types/src (email.rs, mail.rs, mailbox.rs), and JSON values.
--
-- Store: crates/jmapserver/src/store.rs. Store.antt has the record of what the lock guards (`Inner`),
-- of the files of the directory (`Disk`) and of which writes succeed (`Io`); Store.Messages,
-- Store.Threads and Store.Mailboxes have the operations, named as in the source. Store.History has
-- the operations as data and what each does to the change log; Store.Sync, Store.Durable and
-- Store.Effects have the theorems. An operation is a function from store to store, one after the other:
-- in the source `put` looks up the thread and writes its file before it takes the lock, `patch` writes its
-- file after, and `sync_mailboxes` works on its file without it. What two operations do at the same time
-- is not modelled. A file holds a value, or the mark of a text that is no value; the JSON text
-- itself is not modelled, nor the hooks, which are closures.
--
-- Methods: crates/jmapserver/src/methods (mod.rs, email.rs, mailbox.rs, thread.rs, submission.rs).
-- Methods.Fold and Methods.Changes have the changes and queryChanges methods over the log of the
-- store, Methods.Query has Email/query and its pages.
--
-- Accounts: the table of accounts and aliases of crates/jmapsmtp/src/handler.rs, with the store of
-- an account as a parameter. Accounts.Routing has the invariant of the table, Accounts.Delivery the
-- account that an address is delivered to after each operation.
--
-- Smtp: the lines, slices and payloads that crates/jmapsmtp/src/smtp_in.rs and smtp_out.rs share.
-- Smtp.Payload has `dot_stuff`, the writes of `converse` after the reply to DATA, and `read_data`, and
-- Smtp.Errors the failures of a send; Smtp.Server has the inbound session: `split_command`,
-- `parse_path` and `ehlo_response`, and in Smtp.Server.Loop the loop of `handle_inner`. A slice of a `str` inside a character is a panic. The
-- loop runs on fuel, one more than the lines of the stream, which is enough since each round takes
-- a line. A write to the peer is taken to succeed. The functions of the standard library that
-- consult the tables of Unicode (`to_lowercase`, `to_uppercase`, `trim`, `trim_start`, the search
-- for white space and the text of `{:?}`) are a record of parameters, `Unicode`. Smtp.Client has the
-- outbound client: `read_reply`, `check`, `mail_from` and `converse` over the lines of the server,
-- and `deliver` by domain, with the resolver and the outcome of each conversation as functions.
--
-- Queue: crates/jmapsmtp/src/queue.rs, with the schedule and the class of a failure in Queue.Policy
-- (queue/policy.rs). A directory is a slot of a map, each file operation may fail, and the outcome
-- of a send is a function. Queue.Retry has `retry_one` and `report_failure`, which stores its notice by
-- Delivery. The loop over the schedule has fuel for eight rounds; it has seven steps.
--
-- SessionNonce: crates/jmapserver/src/did/session_nonce.rs, with the clock and the nonce that is
-- drawn as arguments.
--
-- GoMux: crates/jmapsmtp/src/gomux.rs, the routing table and the cleaning of paths.
--
-- Base58: crates/jmapserver/src/base58.rs. The loop over a carry has the carry as fuel, and each round
-- makes it smaller.
--
-- Zbase32: crates/jmapserver/src/zbase32.rs, with the 32 bits of the accumulator written out. The loop
-- that writes symbols has a round for each bit as fuel, and each round takes five.
--
-- WebvhId and ScidLocalpart: crates/jmapsmtp/src/did/webvh_id.rs and scid_localpart.rs.
--
-- Config: the lookups of domains of crates/jmapsmtp/src/config.rs.
--
-- Provision: crates/jmapsmtp/src/did/provision.rs. Provision.Service has the accounts, directories and
-- credentials of a running relay, and `account_provision` and `register_dyn_account` of
-- crates/jmapsmtp/src/server.rs; Provision.Lifecycle has `account_delete` and `account_migrate_to_scid`.
-- A directory is the entries of three maps: credentials, the file of aliases, and the envelope. The
-- verdict of the anchor, the mail store of a directory and how each step on the file system fares are
-- given (`World`, `DirRemoval`, `Moves`).
--
-- CustomDomain: the decisions of crates/jmapsmtp/src/customdomain.rs, with the HMAC as a parameter.
--
-- Hooks: the decisions of crates/jmapsmtp/src/hooks.rs on drafts and submissions, with
-- `reply_only_exempt` of config.rs and `known_correspondents` of handler.rs.
--
-- Mime: crates/jmapserver/src/mime.rs. Mime.antt has header blocks, media types and the parts of a
-- multipart body, Mime.Words the transfer encodings and encoded words, Mime.Text the text body and the
-- attachments, Mime.Address addresses and the envelope, Mime.Message `parse_mime_email` and Mime.Build
-- `build_rfc5322`. A loop over the parts of a body has fuel for each byte of the body, and so has the
-- recursion into nested parts; Mime.Text.Levels shows that both are enough. The decoder of base64, the
-- parser of dates and what is known of Unicode are the record `Platform`.
--
-- Autocrypt, Outbound and Submission: crates/jmapsmtp/src/autocrypt.rs, outbound.rs and submit.rs. A
-- submission stores the copy that is kept and leaves a task, which `finish_send` does: the message is built,
-- advertised, wrapped and signed, and then delivered, queued or reported. Keys, signatures and hashes are
-- in the records `Wire` and `Desk`, and so is the outcome of a delivery.
--
-- Delivery: the delivery of a message to the accounts of its recipients (crates/jmapsmtp/src/delivery.rs),
-- with the encryption of crates/jmapsmtp/src/pgp.rs as a parameter; Delivery.Stored says what a message is
-- stored as, and Delivery.Filing where. An account without a key gets the
-- message as it came. What the environment gives (the key, the room of an account, the clock, the
-- outcome of each write) is the record `World`.
--
-- Aliases: the reconciliation of crates/jmapsmtp/src/did/alias_reconcile.rs over the table of accounts, and
-- `account_alias` of crates/jmapsmtp/src/server.rs, with the answer of the anchor as an argument.
--
-- Api: crates/jmapserver/src/refs.rs, and the batch of crates/jmapserver/src/server.rs over any handler
-- that has a state.
--
-- Devices: crates/jmapserver/src/did/devicekeys.rs and devicebind.rs, with base64, the hash of a token
-- and the verification of a signature as the record `Crypto`. Devices.File has the path that an id leads
-- to, since the source joins it as it is; a path that leaves the directory of the account is not followed
-- back into it.
--
-- Login: crates/jmapsmtp/src/auth_env.rs, bearer.rs and did/devices.rs, with the tokens of
-- crates/jmapserver/src/authtoken.rs; Login.Handlers has the login and the handlers of
-- crates/jmapsmtp/src/server.rs for sessions and devices. Hashes, encodings and signatures are the
-- record `Codec`, and the anchor is a function to its verdict.
--
-- Examples: the theorems on concrete runs, and tests of the definitions.
--
-- Not modelled: most of the HTTP front end, the JSON writer, the reading of the configuration, and what
-- is mostly calls of network and cryptographic libraries (DNS, TLS, DKIM, OpenPGP, WKD, web push).
pub mod Accounts
pub mod Aliases
pub mod Api
pub mod Autocrypt
pub mod Base58
pub mod Config
pub mod CustomDomain
pub mod Decimal
pub mod Delivery
pub mod Devices
mod Examples
pub mod GoMux
pub mod Hooks
pub mod JmapTypes
pub mod Keys
pub mod Login
pub mod Map
pub mod Methods
pub mod Mime
pub mod Outbound
pub mod Prelude
pub mod Provision
pub mod Queue
pub mod Result
pub mod ScidLocalpart
pub mod SessionNonce
pub mod Smtp
pub mod Store
pub mod Submission
pub mod WebvhId
pub mod Words
pub mod Zbase32
