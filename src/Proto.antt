-- ===== src/Proto.antt =====
-- The part of the crate imap-proto that the program matches on: the variants that stand in the
-- patterns of `src/parse.rs`, `src/client.rs`, `src/types` and `src/extensions`. All other variants
-- of a type are its `other`, which carries a number for what the program only compares or copies.
use async_imap.Base.{ℕ, Option, List}
use async_imap.Base.Text.{Bytes}

-- A tag, as the text that it wraps.
abbrev pub RequestId : Type 0
RequestId = Bytes

-- Values that the program copies and never looks into.
pub record Metadata : Type 0 where
  pub entry : Bytes
  pub value : Option Bytes

abbrev pub NameAttribute : Type 0
NameAttribute = Bytes

abbrev pub Envelope : Type 0
Envelope = Bytes

abbrev pub BodyStructure : Type 0
BodyStructure = Bytes

pub data Status : Type 0 where
  ok no bad other : Status

pub data ResponseCode : Type 0 where
  uid_validity : ℕ → ResponseCode
  uid_next : ℕ → ResponseCode
  highest_mod_seq : ℕ → ResponseCode
  unseen : ℕ → ResponseCode
  permanent_flags : List Bytes → ResponseCode
  other : ℕ → ResponseCode

pub data StatusAttribute : Type 0 where
  highest_mod_seq : ℕ → StatusAttribute
  messages : ℕ → StatusAttribute
  recent : ℕ → StatusAttribute
  uid_next : ℕ → StatusAttribute
  uid_validity : ℕ → StatusAttribute
  unseen : ℕ → StatusAttribute
  other : ℕ → StatusAttribute

pub data MailboxDatum : Type 0 where
  exists : ℕ → MailboxDatum
  recent : ℕ → MailboxDatum
  flags : List Bytes → MailboxDatum
  list : List NameAttribute → Option Bytes → Bytes → MailboxDatum
  search : List ℕ → MailboxDatum
  sort : List ℕ → MailboxDatum
  status : Bytes → List StatusAttribute → MailboxDatum
  metadata_solicited : Bytes → List Metadata → MailboxDatum
  metadata_unsolicited : Bytes → List Bytes → MailboxDatum
  other : ℕ → MailboxDatum

pub data MessageSection : Type 0 where
  header text : MessageSection
  other : ℕ → MessageSection

pub data SectionPath : Type 0 where
  full : MessageSection → SectionPath
  other : ℕ → SectionPath

pub data AttributeValue : Type 0 where
  uid : ℕ → AttributeValue
  rfc822_size : ℕ → AttributeValue
  mod_seq : ℕ → AttributeValue
  flags : List Bytes → AttributeValue
  body_section : Option SectionPath → Option Bytes → AttributeValue
  rfc822 : Option Bytes → AttributeValue
  rfc822_header : Option Bytes → AttributeValue
  rfc822_text : Option Bytes → AttributeValue
  envelope : Envelope → AttributeValue
  internal_date : Bytes → AttributeValue
  body_structure : BodyStructure → AttributeValue
  other : ℕ → AttributeValue

pub data CapabilityRef : Type 0 where
  imap4rev1 : CapabilityRef
  auth : Bytes → CapabilityRef
  atom : Bytes → CapabilityRef

pub data QuotaResourceNameRef : Type 0 where
  storage message : QuotaResourceNameRef
  atom : Bytes → QuotaResourceNameRef

pub record QuotaResourceRef : Type 0 where
  pub name : QuotaResourceNameRef
  pub usage : ℕ
  pub limit : ℕ

pub record QuotaRef : Type 0 where
  pub root_name : Bytes
  pub resources : List QuotaResourceRef

pub record QuotaRootRef : Type 0 where
  pub mailbox_name : Bytes
  pub quota_root_names : List Bytes

pub data Response : Type 0 where
  continue : Option ResponseCode → Option Bytes → Response
  done : RequestId → Status → Option ResponseCode → Option Bytes → Response
  status_data : Status → Option ResponseCode → Option Bytes → Response
  expunge : ℕ → Response
  fetch : ℕ → List AttributeValue → Response
  mailbox_data : MailboxDatum → Response
  capabilities : List CapabilityRef → Response
  id : Option (List (Bytes × Bytes)) → Response
  quota : QuotaRef → Response
  quota_root : QuotaRootRef → Response
  other : ℕ → Response
