-- ===== src/Types/Fetch/Readers.antt =====
-- What the fields and the readers of a `Fetch` return (src/types/fetch.rs).
use async_imap.Base.{
  ℕ, ◌≡◌, ◌≢◌, refl, Option, none, some, List, [], ◌∷◌, arith, filter_map, find_map, last_or,
}
use async_imap.Base.Text.{Bytes}
use async_imap.Error.{ok, panic}
use async_imap.Proto.{AttributeValue, SectionPath, MessageSection, Response}
use async_imap.Types.Wire.{ResponseData}
use async_imap.Types.Fetch.{
  Fetch, read_attr, read_attrs, new, as_fetch, attrs_of, header, header_in, text, text_in, section,
  section_in,
}

abbrev uid_in : AttributeValue → Option ℕ
uid_in (AttributeValue.uid n) = some n
uid_in _ = none

abbrev size_in : AttributeValue → Option ℕ
size_in (AttributeValue.rfc822_size n) = some n
size_in _ = none

abbrev mod_seq_in : AttributeValue → Option ℕ
mod_seq_in (AttributeValue.mod_seq n) = some n
mod_seq_in _ = none

-- `f` came from `new` on `response`, which holds `message` and `attrs`.
pub record Reads (f : Fetch) (response : ResponseData) (message : ℕ) (attrs : List AttributeValue)
    : Type 0 where
  pub response_is : f.response ≡ response
  pub message_is : f.message ≡ message
  pub uid_is : f.uid ≡ last_or none (filter_map uid_in attrs)
  pub size_is : f.size ≡ last_or none (filter_map size_in attrs)
  pub modseq_is : f.modseq ≡ last_or none (filter_map mod_seq_in attrs)

read_attrs-uid :
    (f : Fetch) (attrs : List AttributeValue)
    → (read_attrs f attrs).uid ≡ last_or f.uid (filter_map uid_in attrs)
unfolding read_attrs filter_map last_or
read_attrs-uid f [] = refl
read_attrs-uid f (AttributeValue.uid n ∷ attrs) = read_attrs-uid (record f { uid = some n }) attrs
read_attrs-uid f (a ∷ attrs) = read_attrs-uid (read_attr f a) attrs

read_attrs-size :
    (f : Fetch) (attrs : List AttributeValue)
    → (read_attrs f attrs).size ≡ last_or f.size (filter_map size_in attrs)
unfolding read_attrs filter_map last_or
read_attrs-size f [] = refl
read_attrs-size f (AttributeValue.rfc822_size n ∷ attrs) =
    read_attrs-size (record f { size = some n }) attrs
read_attrs-size f (a ∷ attrs) = read_attrs-size (read_attr f a) attrs

read_attrs-modseq :
    (f : Fetch) (attrs : List AttributeValue)
    → (read_attrs f attrs).modseq ≡ last_or f.modseq (filter_map mod_seq_in attrs)
unfolding read_attrs filter_map last_or
read_attrs-modseq f [] = refl
read_attrs-modseq f (AttributeValue.mod_seq n ∷ attrs) =
    read_attrs-modseq (record f { modseq = some n }) attrs
read_attrs-modseq f (a ∷ attrs) = read_attrs-modseq (read_attr f a) attrs

read_attrs_rest :
    (f : Fetch) (attrs : List AttributeValue)
    → ((read_attrs f attrs).response ≡ f.response) × ((read_attrs f attrs).message ≡ f.message)
unfolding read_attrs
read_attrs_rest f [] = (refl, refl)
read_attrs_rest f (AttributeValue.uid n ∷ attrs) = read_attrs_rest (record f { uid = some n }) attrs
read_attrs_rest f (a ∷ attrs) = read_attrs_rest (read_attr f a) attrs

-- A response that is a `FETCH` makes a value with its number, and with the last of its `UID`, size and
-- modification sequence attributes, or none where it has none.
pub new-Reads :
    (owner : Bytes) (message : ℕ) (attrs : List AttributeValue)
    → let response : ResponseData = record {
      owner = owner;
      parsed = Response.fetch message attrs;
    } in
      (f : Fetch) × (new response ≡ ok f) × Reads f response message attrs
unfolding new as_fetch
new-Reads owner message attrs =
    let response : ResponseData = record { owner = owner; parsed = Response.fetch message attrs } in
    let start : Fetch = record {
      response = response;
      message = message;
      uid = none;
      size = none;
      modseq = none;
    } in
    (
      read_attrs start attrs,
      refl,
      record {
        response_is = (read_attrs_rest start attrs).0;
        message_is = (read_attrs_rest start attrs).1;
        uid_is = read_attrs-uid start attrs;
        size_is = read_attrs-size start attrs;
        modseq_is = read_attrs-modseq start attrs;
      },
    )

abbrev pub old_header_in : AttributeValue → Option Bytes
old_header_in (AttributeValue.rfc822_header d) = d
old_header_in _ = none

header-eq-section :
    (attrs : List AttributeValue)
    → find_map old_header_in attrs ≡ none
    → find_map header_in attrs
      ≡ find_map (section_in (SectionPath.full MessageSection.header)) attrs
unfolding find_map header_in section_in
header-eq-section [] h = refl
header-eq-section (a ∷ attrs) h = ground (arith, header-eq-section attrs)

abbrev pub old_text_in : AttributeValue → Option Bytes
old_text_in (AttributeValue.rfc822_text d) = d
old_text_in _ = none

text-eq-section :
    (attrs : List AttributeValue)
    → find_map old_text_in attrs ≡ none
    → find_map text_in attrs ≡ find_map (section_in (SectionPath.full MessageSection.text)) attrs
unfolding find_map text_in section_in
text-eq-section [] h = refl
text-eq-section (a ∷ attrs) h = ground (arith, text-eq-section attrs)

-- Where a `FETCH` response has none of the old `RFC822.HEADER` and `RFC822.TEXT` attributes, the
-- header and the text of its value are those of the body sections of these names, and `header` does not
-- panic.
pub readers-eq-section :
    (owner : Bytes) (message : ℕ) (attrs : List AttributeValue) (f : Fetch)
    → new (record { owner = owner; parsed = Response.fetch message attrs }) ≡ ok f
    → find_map old_header_in attrs ≡ none
    → find_map old_text_in attrs ≡ none
    → (header f ≡ section f (SectionPath.full MessageSection.header))
      × (text f ≡ section f (SectionPath.full MessageSection.text))
      × (header f ≢ panic)
readers-eq-section owner message attrs f n h t =
    unfold new as_fetch header text section attrs_of in
    ground (
      arith,
      header-eq-section attrs h,
      text-eq-section attrs t,
      read_attrs_rest
          (record {
            response = record { owner = owner; parsed = Response.fetch message attrs };
            message = message;
            uid = none;
            size = none;
            modseq = none;
          })
          attrs,
    )
