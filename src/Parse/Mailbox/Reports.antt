-- ===== src/Parse/Mailbox/Reports.antt =====
-- What a mailbox shows after the attributes that `parse_status` of src/parse.rs notes.
use async_imap.Base.{
  ℕ, ◌≡◌, refl, sym, ◌∙◌, Option, none, some, List, [], ◌∷◌, ◌++◌, filter_map, flatten, foldl,
  last-foldl, last_or, arith, if◌then◌else◌,
}
use async_imap.Base.Text.{Bytes, equal}
use async_imap.Parse.Mailbox.{note_attribute, note_attributes}
use async_imap.Proto.{StatusAttribute, Response, MailboxDatum}
use async_imap.Types.Mailbox.{Mailbox, default}
use async_imap.Types.Wire.{ResponseData}

-- The attributes of a `STATUS` response for the mailbox that was asked about.
abbrev pub attributes_of : Bytes → Response → Option (List StatusAttribute)
attributes_of expected (Response.mailbox_data (MailboxDatum.status mailbox attributes)) =
    if equal mailbox expected then some attributes else none
attributes_of expected _ = none

abbrev pub attributes_in : Bytes → ResponseData → Option (List StatusAttribute)
attributes_in expected r = attributes_of expected r.parsed

abbrev messages_in : StatusAttribute → Option ℕ
messages_in (StatusAttribute.messages n) = some n
messages_in _ = none

abbrev recent_in : StatusAttribute → Option ℕ
recent_in (StatusAttribute.recent n) = some n
recent_in _ = none

abbrev unseen_in : StatusAttribute → Option ℕ
unseen_in (StatusAttribute.unseen n) = some n
unseen_in _ = none

abbrev uid_next_in : StatusAttribute → Option ℕ
uid_next_in (StatusAttribute.uid_next n) = some n
uid_next_in _ = none

abbrev uid_validity_in : StatusAttribute → Option ℕ
uid_validity_in (StatusAttribute.uid_validity n) = some n
uid_validity_in _ = none

abbrev modseq_in : StatusAttribute → Option ℕ
modseq_in (StatusAttribute.highest_mod_seq n) = some n
modseq_in _ = none

-- Each number is that of the last attribute of its kind, and there are no flags.
pub record Shows (attributes : List StatusAttribute) (mbox : Mailbox) : Type 0 where
  pub exists_is : some mbox.exists ≡ last_or (some 0) (filter_map messages_in attributes)
  pub recent_is : some mbox.recent ≡ last_or (some 0) (filter_map recent_in attributes)
  pub unseen_is : mbox.unseen ≡ last_or none (filter_map unseen_in attributes)
  pub uid_next_is : mbox.uid_next ≡ last_or none (filter_map uid_next_in attributes)
  pub uid_validity_is : mbox.uid_validity ≡ last_or none (filter_map uid_validity_in attributes)
  pub modseq_is : mbox.highest_modseq ≡ last_or none (filter_map modseq_in attributes)
  pub flags_are : (mbox.flags ≡ []) × (mbox.permanent_flags ≡ [])

no_flags :
    (attributes : List StatusAttribute) (m : Mailbox)
    → ((foldl note_attribute m attributes).flags ≡ m.flags)
      × ((foldl note_attribute m attributes).permanent_flags ≡ m.permanent_flags)
unfolding foldl note_attribute
no_flags [] m = (refl, refl)
no_flags (a ∷ attributes) m = ground (arith, no_flags attributes (note_attribute m a))

pub foldl-Shows :
    (attributes : List StatusAttribute) → Shows attributes (foldl note_attribute default attributes)
unfolding note_attribute last_or
foldl-Shows attributes = record {
  exists_is =
      last-foldl note_attribute (λ m. some m.exists) messages_in (λ m a. ground arith) attributes
        default;
  recent_is =
      last-foldl note_attribute (λ m. some m.recent) recent_in (λ m a. ground arith) attributes
        default;
  unseen_is =
      last-foldl note_attribute (λ m. m.unseen) unseen_in (λ m a. ground arith) attributes default;
  uid_next_is =
      last-foldl note_attribute (λ m. m.uid_next) uid_next_in (λ m a. ground arith) attributes
        default;
  uid_validity_is =
      last-foldl note_attribute (λ m. m.uid_validity) uid_validity_in (λ m a. ground arith)
        attributes default;
  modseq_is =
      last-foldl note_attribute (λ m. m.highest_modseq) modseq_in (λ m a. ground arith) attributes
        default;
  flags_are = no_flags attributes default;
}

foldl-append :
    (xs ys : List StatusAttribute) (m : Mailbox)
    → foldl note_attribute m (xs ++ ys) ≡ foldl note_attribute (foldl note_attribute m xs) ys
unfolding foldl
foldl-append [] ys m = refl
foldl-append (x ∷ xs) ys m = foldl-append xs ys (note_attribute m x)

pub foldl-flatten :
    (groups : List (List StatusAttribute)) (m : Mailbox)
    → foldl note_attributes m groups ≡ foldl note_attribute m (flatten groups)
unfolding foldl flatten note_attributes
foldl-flatten [] m = refl
foldl-flatten (g ∷ groups) m =
    foldl-flatten groups (note_attributes m g) ∙ sym (foldl-append g (flatten groups) m)
