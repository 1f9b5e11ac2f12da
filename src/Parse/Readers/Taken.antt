-- ===== src/Parse/Readers/Taken.antt =====
-- What the readers of src/parse.rs, src/extensions/id.rs and src/extensions/quota.rs that are built on
-- the shared loops do to the stream and the channel, whatever the items are.
use async_imap.Base.{ℕ, arith, refl, ◌≡◌, true, List, Option, some, none}
use async_imap.Base.Text.{Bytes}
use async_imap.Channel.{Channel, ChannelLaws}
use async_imap.Error.Calm.{IsCalm, AllCalm, IsCalm-ok, IsCalm-err}
use async_imap.Error.{Outcome, ok, err}
use async_imap.Types.Fetch
use async_imap.Types.Fetch.{Fetch}
use async_imap.Types.Quota.{Quota}
use async_imap.Types.Wire.{ResponseData, Name, from_mailbox_data}
use async_imap.Parse.{Item}
use async_imap.Parse.Readers.{
  select_name, select_fetch, select_expunge, quota_missing, parse_names, parse_fetches,
  parse_expunge, parse_capabilities, parse_noop, parse_ids, parse_metadata, parse_id,
  parse_get_quota, parse_get_quota_root,
}
use async_imap.Parse.Taken.{
  Taken, Reads, Reads-then, while_filtered-Reads, take_filtered-Taken, take_filtered-AllCalm,
}
use async_imap.Proto.{RequestId, Response, MailboxDatum}

quota-IsCalm :
    (found : Option Quota)
    → IsCalm {A = Quota} (elim found [ some q ↦ ok q | none ↦ err quota_missing ])
quota-IsCalm none = IsCalm-err
quota-IsCalm (some q) = IsCalm-ok

name-IsCalm :
    (r : ResponseData) (x : Response) (o : Outcome Name)
    → r.parsed ≡ x
    → select_name r x ≡ some o
    → IsCalm o
unfolding select_name from_mailbox_data
name-IsCalm r (Response.mailbox_data (MailboxDatum.list _ _ _)) o e h = record {
  no_panic = ground arith;
}
name-IsCalm r _ o e h = absurd (ground arith)

fetch-IsCalm :
    (r : ResponseData) (x : Response) (o : Outcome Fetch)
    → r.parsed ≡ x
    → select_fetch r x ≡ some o
    → IsCalm o
unfolding select_fetch Fetch.new
fetch-IsCalm r (Response.fetch _ _) o e h = record { no_panic = ground arith }
fetch-IsCalm r _ o e h = absurd (ground arith)

expunge-IsCalm : (x : Response) (o : Outcome ℕ) → select_expunge x ≡ some o → IsCalm o
unfolding select_expunge
expunge-IsCalm x o h = record { no_panic = ground arith }

module _ {C : Type 0} {ch : Channel C} (laws : ChannelLaws ch) where
  pub parse_names-Taken :
      (tag : RequestId) (asked : ℕ) (items : List Item) (c : C)
      → laws.is_open c ≡ true
      → Taken laws items c (parse_names ch tag asked items c).1
  unfolding parse_names
  parse_names-Taken tag asked items c o = take_filtered-Taken laws _ tag asked items c o

  pub parse_names-AllCalm :
      (tag : RequestId) (asked : ℕ) (items : List Item) (c : C)
      → laws.is_open c ≡ true
      → AllCalm (parse_names ch tag asked items c).0
  unfolding parse_names
  parse_names-AllCalm tag asked items c o =
      take_filtered-AllCalm laws _ tag (λ r a. name-IsCalm r r.parsed a refl) asked items c o

  pub parse_fetches-Taken :
      (tag : RequestId) (asked : ℕ) (items : List Item) (c : C)
      → laws.is_open c ≡ true
      → Taken laws items c (parse_fetches ch tag asked items c).1
  unfolding parse_fetches
  parse_fetches-Taken tag asked items c o = take_filtered-Taken laws _ tag asked items c o

  pub parse_fetches-AllCalm :
      (tag : RequestId) (asked : ℕ) (items : List Item) (c : C)
      → laws.is_open c ≡ true
      → AllCalm (parse_fetches ch tag asked items c).0
  unfolding parse_fetches
  parse_fetches-AllCalm tag asked items c o =
      take_filtered-AllCalm laws _ tag (λ r a. fetch-IsCalm r r.parsed a refl) asked items c o

  pub parse_expunge-Taken :
      (tag : RequestId) (asked : ℕ) (items : List Item) (c : C)
      → laws.is_open c ≡ true
      → Taken laws items c (parse_expunge ch tag asked items c).1
  unfolding parse_expunge
  parse_expunge-Taken tag asked items c o = take_filtered-Taken laws _ tag asked items c o

  pub parse_expunge-AllCalm :
      (tag : RequestId) (asked : ℕ) (items : List Item) (c : C)
      → laws.is_open c ≡ true
      → AllCalm (parse_expunge ch tag asked items c).0
  unfolding parse_expunge
  parse_expunge-AllCalm tag asked items c o =
      take_filtered-AllCalm laws _ tag (λ r a. expunge-IsCalm r.parsed a) asked items c o

  pub parse_capabilities-Reads :
      (tag : RequestId) (items : List Item) (c : C)
      → laws.is_open c ≡ true
      → Reads laws items c (parse_capabilities ch tag items c)
  unfolding parse_capabilities
  parse_capabilities-Reads tag items c o =
      Reads-then laws _ _ (λ set. IsCalm-ok) (while_filtered-Reads laws _ _ tag items _ c o)

  pub parse_noop-Reads :
      (tag : RequestId) (items : List Item) (c : C)
      → laws.is_open c ≡ true
      → Reads laws items c (parse_noop ch tag items c)
  unfolding parse_noop
  parse_noop-Reads tag items c o = while_filtered-Reads laws _ _ tag items _ c o

  pub parse_ids-Reads :
      (tag : RequestId) (items : List Item) (c : C)
      → laws.is_open c ≡ true
      → Reads laws items c (parse_ids ch tag items c)
  unfolding parse_ids
  parse_ids-Reads tag items c o = while_filtered-Reads laws _ _ tag items _ c o

  pub parse_metadata-Reads :
      (name : Bytes) (tag : RequestId) (items : List Item) (c : C)
      → laws.is_open c ≡ true
      → Reads laws items c (parse_metadata ch name tag items c)
  unfolding parse_metadata
  parse_metadata-Reads name tag items c o = while_filtered-Reads laws _ _ tag items _ c o

  pub parse_id-Reads :
      (tag : RequestId) (items : List Item) (c : C)
      → laws.is_open c ≡ true
      → Reads laws items c (parse_id ch tag items c)
  unfolding parse_id
  parse_id-Reads tag items c o = while_filtered-Reads laws _ _ tag items _ c o

  pub parse_get_quota-Reads :
      (tag : RequestId) (items : List Item) (c : C)
      → laws.is_open c ≡ true
      → Reads laws items c (parse_get_quota ch tag items c)
  unfolding parse_get_quota
  parse_get_quota-Reads tag items c o =
      Reads-then laws _ _ quota-IsCalm (while_filtered-Reads laws _ _ tag items _ c o)

  pub parse_get_quota_root-Reads :
      (tag : RequestId) (items : List Item) (c : C)
      → laws.is_open c ≡ true
      → Reads laws items c (parse_get_quota_root ch tag items c)
  unfolding parse_get_quota_root
  parse_get_quota_root-Reads tag items c o = while_filtered-Reads laws _ _ tag items _ c o
