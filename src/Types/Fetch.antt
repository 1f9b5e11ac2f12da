-- ===== src/Types/Fetch.antt =====
-- src/types/fetch.rs. A reader of a `Fetch` matches the stored response again, and its `unreachable!`
-- is the panic of the outcome.
pub mod Readers
use async_imap.Base.{
  ℕ, Bool, true, false, Option, none, some, List, [], ◌∷◌, map, ◌==◌, filter_map, find_map, flatten,
  if◌then◌else◌,
}
use async_imap.Base.Text.{Bytes}
use async_imap.Error.{Outcome, ok, panic, ◌>>=◌}
use async_imap.Proto.{
  AttributeValue, SectionPath, MessageSection, Response, Envelope, BodyStructure,
}
use async_imap.Types.Flag
use async_imap.Types.Flag.{Flag}
use async_imap.Types.Wire.{ResponseData}

pub record Fetch : Type 0 where
  pub response : ResponseData
  pub message : ℕ
  pub uid : Option ℕ
  pub size : Option ℕ
  pub modseq : Option ℕ

-- One round of the loop in `new`.
read_attr : Fetch → AttributeValue → Fetch
read_attr f (AttributeValue.uid id) = record f { uid = some id }
read_attr f (AttributeValue.rfc822_size sz) = record f { size = some sz }
read_attr f (AttributeValue.mod_seq ms) = record f { modseq = some ms }
read_attr f _ = f

unfoldable pub read_attrs : Fetch → List AttributeValue → Fetch
unfolding read_attr
read_attrs f [] = f
read_attrs f (attr ∷ attrs) = read_attrs (read_attr f attr) attrs

-- `if let Response::Fetch(message, attrs) = response.parsed()`, else `unreachable!()`.
unfoldable pub as_fetch : Response → Outcome (ℕ × List AttributeValue)
as_fetch (Response.fetch message attrs) = ok (message, attrs)
as_fetch _ = panic

unfoldable pub new : ResponseData → Outcome Fetch
unfolding as_fetch read_attrs
new response = do
  (message, attrs) ← as_fetch response.parsed
  ok (
      read_attrs
        (record { response = response; message = message; uid = none; size = none; modseq = none })
        attrs)

unfoldable pub attrs_of : Fetch → Outcome (List AttributeValue)
unfolding as_fetch
attrs_of f = do (message, attrs) ← as_fetch f.response.parsed; ok attrs

flags_in : AttributeValue → Option (List Flag)
flags_in (AttributeValue.flags raw_flags) = some (map Flag.from raw_flags)
flags_in _ = none

unfoldable pub flags : Fetch → Outcome (List Flag)
unfolding attrs_of flags_in
flags f = do attrs ← attrs_of f; ok (flatten (filter_map flags_in attrs))

-- The patterns `section: Some(sp), data: Some(d)` where `sp` is the header, and `Rfc822Header(Some(d))`.
header_section : SectionPath → Bytes → Option Bytes
header_section (SectionPath.full MessageSection.header) hdr = some hdr
header_section _ hdr = none

header_in : AttributeValue → Option Bytes
unfolding header_section
header_in (AttributeValue.body_section (some sp) (some hdr)) = header_section sp hdr
header_in (AttributeValue.rfc822_header hdr) = hdr
header_in _ = none

unfoldable pub header : Fetch → Outcome (Option Bytes)
unfolding attrs_of header_in
header f = do attrs ← attrs_of f; ok (find_map header_in attrs)

body_in : AttributeValue → Option Bytes
body_in (AttributeValue.body_section none body) = body
body_in (AttributeValue.rfc822 body) = body
body_in _ = none

unfoldable pub body : Fetch → Outcome (Option Bytes)
unfolding attrs_of body_in
body f = do attrs ← attrs_of f; ok (find_map body_in attrs)

text_section : SectionPath → Bytes → Option Bytes
text_section (SectionPath.full MessageSection.text) body = some body
text_section _ body = none

text_in : AttributeValue → Option Bytes
unfolding text_section
text_in (AttributeValue.body_section (some sp) (some body)) = text_section sp body
text_in (AttributeValue.rfc822_text body) = body
text_in _ = none

unfoldable pub text : Fetch → Outcome (Option Bytes)
unfolding attrs_of text_in
text f = do attrs ← attrs_of f; ok (find_map text_in attrs)

envelope_in : AttributeValue → Option Envelope
envelope_in (AttributeValue.envelope env) = some env
envelope_in _ = none

unfoldable pub envelope : Fetch → Outcome (Option Envelope)
unfolding attrs_of envelope_in
envelope f = do attrs ← attrs_of f; ok (find_map envelope_in attrs)

-- The derived `==` of section paths.
unfoldable pub same_section : MessageSection → MessageSection → Bool
same_section MessageSection.header MessageSection.header = true
same_section MessageSection.text MessageSection.text = true
same_section (MessageSection.other m) (MessageSection.other n) = m == n
same_section _ _ = false

unfoldable pub same_path : SectionPath → SectionPath → Bool
unfolding same_section
same_path (SectionPath.full s) (SectionPath.full t) = same_section s t
same_path (SectionPath.other m) (SectionPath.other n) = m == n
same_path _ _ = false

section_in : SectionPath → AttributeValue → Option Bytes
unfolding same_path
section_in path (AttributeValue.body_section (some sp) (some body)) =
    if same_path sp path then some body else none
section_in path _ = none

unfoldable pub section : Fetch → SectionPath → Outcome (Option Bytes)
unfolding attrs_of section_in
section f path = do attrs ← attrs_of f; ok (find_map (section_in path) attrs)

date_in : AttributeValue → Option Bytes
date_in (AttributeValue.internal_date date_time) = some date_time
date_in _ = none

-- The argument is `DateTime::parse_from_str` of the crate chrono, with the format of the source.
unfoldable pub internal_date {ℓ} : {D : Type ℓ} → (Bytes → Option D) → Fetch → Outcome (Option D)
unfolding attrs_of date_in
internal_date parse_from_str f = do
  attrs ← attrs_of f
  ok (elim (find_map date_in attrs) [ some date_time ↦ parse_from_str date_time | none ↦ none ])

bodystructure_in : AttributeValue → Option BodyStructure
bodystructure_in (AttributeValue.body_structure bs) = some bs
bodystructure_in _ = none

unfoldable pub bodystructure : Fetch → Outcome (Option BodyStructure)
unfolding attrs_of bodystructure_in
bodystructure f = do attrs ← attrs_of f; ok (find_map bodystructure_in attrs)
