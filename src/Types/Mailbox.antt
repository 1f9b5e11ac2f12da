-- ===== src/Types/Mailbox.antt =====
-- src/types/mailbox.rs.
use async_imap.Base.{ℕ, Option, none, List, []}
use async_imap.Types.Flag.{Flag}

pub record Mailbox : Type 0 where
  pub flags : List Flag
  pub exists : ℕ
  pub recent : ℕ
  pub unseen : Option ℕ
  pub permanent_flags : List Flag
  pub uid_next : Option ℕ
  pub uid_validity : Option ℕ
  pub highest_modseq : Option ℕ

-- `Mailbox::default()`, as derived.
abbrev pub default : Mailbox
default = record {
  flags = [];
  exists = 0;
  recent = 0;
  unseen = none;
  permanent_flags = [];
  uid_next = none;
  uid_validity = none;
  highest_modseq = none;
}
