-- ===== src/JmapTypes.antt =====
-- The wire types of crates/jmap-types/src (email.rs, mail.rs, mailbox.rs), and JSON values. A newtype
-- over a string (`Id`, `Role`, `JmapTime`) is the string.
use jmapsmtp.Prelude.{ℕ, Bool, false, Option, none, List, [], Str}
use jmapsmtp.Map.{Map}

-- `serde_json::Value`. A number is its text, which no modelled code computes with.
mutual
  pub data Value : Type 0 where
    null : Value
    bool : Bool → Value
    number : Str → Value
    string : Str → Value
    array : Items → Value
    object : Fields → Value

  pub data Items : Type 0 where
    nil : Items
    cons : Value → Items → Items

  pub data Fields : Type 0 where
    done : Fields
    field : Str → Value → Fields → Fields

abbrev pub JsonObject : Type 0
JsonObject = Map Str Value

pub record Address : Type 0 where
  pub name : Str
  pub email : Str

pub record Header : Type 0 where
  pub name : Str
  pub value : Str

-- `BodyPart`, whose last field is the list of its parts.
mutual
  pub data BodyPart : Type 0 where
    body_part :
        (part_id blob_id : Str) (size : ℕ) (headers : List Header)
        (name content_type charset disposition cid : Str) (language : List Str) (location : Str)
        (sub_parts : BodyParts)
        → BodyPart

  pub data BodyParts : Type 0 where
    no_parts : BodyParts
    one_more : BodyPart → BodyParts → BodyParts

pub record BodyValue : Type 0 where
  pub value : Str
  pub is_encoding_problem : Bool
  pub is_truncated : Bool

pub record Email : Type 0 where
  pub id : Str
  pub blob_id : Str
  pub thread_id : Str
  pub mailbox_ids : Map Str Bool
  pub keywords : Map Str Bool
  pub size : ℕ
  pub received_at : Option Str
  pub headers : List Header
  pub message_id : List Str
  pub in_reply_to : List Str
  pub references : List Str
  pub sender : List Address
  pub from : List Address
  pub to : List Address
  pub cc : List Address
  pub bcc : List Address
  pub reply_to : List Address
  pub subject : Str
  pub sent_at : Option Str
  pub body_structure : Option BodyPart
  pub body_values : Map Str BodyValue
  pub text_body : List BodyPart
  pub html_body : List BodyPart
  pub attachments : List BodyPart
  pub has_attachment : Bool
  pub preview : Str
  pub smime_status : Str
  pub smime_status_at_delivery : Str
  pub smime_errors : List Str
  pub smime_verified_at : Option Str

-- `Email::default()`.
abbrev pub empty_email : Email
empty_email = record {
  id = [];
  blob_id = [];
  thread_id = [];
  mailbox_ids = [];
  keywords = [];
  size = 0;
  received_at = none;
  headers = [];
  message_id = [];
  in_reply_to = [];
  references = [];
  sender = [];
  from = [];
  to = [];
  cc = [];
  bcc = [];
  reply_to = [];
  subject = [];
  sent_at = none;
  body_structure = none;
  body_values = [];
  text_body = [];
  html_body = [];
  attachments = [];
  has_attachment = false;
  preview = [];
  smime_status = [];
  smime_status_at_delivery = [];
  smime_errors = [];
  smime_verified_at = none;
}

pub record Rights : Type 0 where
  pub may_read_items : Bool
  pub may_add_items : Bool
  pub may_remove_items : Bool
  pub may_set_seen : Bool
  pub may_set_keywords : Bool
  pub may_create_child : Bool
  pub may_rename : Bool
  pub may_delete : Bool
  pub may_submit : Bool

pub record Mailbox : Type 0 where
  pub id : Str
  pub name : Str
  pub parent_id : Str
  pub role : Str
  pub sort_order : ℕ
  pub total_emails : ℕ
  pub unread_emails : ℕ
  pub total_threads : ℕ
  pub unread_threads : ℕ
  pub rights : Option Rights
  pub is_subscribed : Bool
