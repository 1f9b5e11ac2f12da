-- ===== src/Parse/Readers.antt =====
-- The readers of src/parse.rs, src/extensions/id.rs and src/extensions/quota.rs that are built on the
-- shared loop and the shared stream: each is given by the arms of its `match`.
pub mod Announced
pub mod Laws
pub mod Quotas
pub mod Reported
pub mod Taken
pub mod Refusals
use async_imap.Base.{
  ℕ, Bool, false, ◌||◌, Option, none, some, List, [], ◌∷◌, ◌++◌, ◌==◌, foldl, if◌then◌else◌,
}
use async_imap.Base.Text.{Bytes, codes, equal}
use async_imap.Channel.{Channel}
use async_imap.Error.{Outcome, ok, ParseError, ◌>>=◌}
use async_imap.Error
use async_imap.Parse.{Item, Feed, while_filtered, take_filtered}
use async_imap.Proto.{RequestId, Response, MailboxDatum, CapabilityRef, Metadata}
use async_imap.Types.Capabilities
use async_imap.Types.Capabilities.{Capability, Capabilities}
use async_imap.Types.Fetch
use async_imap.Types.Fetch.{Fetch}
use async_imap.Types.Quota.{Quota, QuotaRoot, from_quota, from_quota_root}
use async_imap.Types.Wire.{ResponseData, Name, from_mailbox_data}

abbrev or_panic {ℓ} : {A : Type ℓ} → Option A → Outcome A
or_panic none = Outcome.panic
or_panic (some a) = ok a

unfoldable pub select_name : ResponseData → Response → Option (Outcome Name)
select_name resp (Response.mailbox_data (MailboxDatum.list _ _ _)) =
    some (or_panic (from_mailbox_data resp))
select_name resp _ = none

unfoldable pub select_fetch : ResponseData → Response → Option (Outcome Fetch)
select_fetch resp (Response.fetch _ _) = some (Fetch.new resp)
select_fetch resp _ = none

unfoldable pub select_expunge : Response → Option (Outcome ℕ)
select_expunge (Response.expunge id) = some (ok id)
select_expunge _ = none

pub select_capabilities : Response → Option (List CapabilityRef)
select_capabilities (Response.capabilities cs) = some cs
select_capabilities _ = none

insert_capabilities : List Capability → List CapabilityRef → List Capability
insert_capabilities = foldl (λ caps c. Capabilities.insert (Capabilities.from c) caps)

pub select_ids : Response → Option (List ℕ)
select_ids (Response.mailbox_data (MailboxDatum.search cs)) = some cs
select_ids _ = none

-- A `HashSet<u32>` as a list that holds no number twice.
unfoldable pub member : ℕ → List ℕ → Bool
member n [] = false
member n (x ∷ xs) = x == n || member n xs

unfoldable pub insert : ℕ → List ℕ → List ℕ
unfolding member
insert n ids = if member n ids then ids else n ∷ ids

unfoldable pub insert_ids : List ℕ → List ℕ → List ℕ
insert_ids = foldl (λ ids c. insert c ids)

pub select_metadata : Bytes → Response → Option (List Metadata)
select_metadata mailbox_name
      (Response.mailbox_data (MailboxDatum.metadata_solicited mailbox values)) =
    if equal mailbox mailbox_name then some values else none
select_metadata mailbox_name _ = none

-- The id that a response sets: there may be one, which may be `NIL`.
pub select_id : Response → Option (Option (List (Bytes × Bytes)))
select_id (Response.id res) = some res
select_id _ = none

unfoldable pub select_quota : Response → Option Quota
select_quota (Response.quota q) = some (from_quota q)
select_quota _ = none

pub data RootOrQuota : Type 0 where
  root : QuotaRoot → RootOrQuota
  quota : Quota → RootOrQuota

select_root : Response → Option RootOrQuota
select_root (Response.quota_root qr) = some (root (from_quota_root qr))
select_root (Response.quota q) = some (quota (from_quota q))
select_root _ = none

push_root : List QuotaRoot × List Quota → RootOrQuota → List QuotaRoot × List Quota
push_root (roots, quotas) (root qr) = (roots ++ qr ∷ [], quotas)
push_root (roots, quotas) (quota q) = (roots, quotas ++ q ∷ [])

abbrev pub quota_missing : Error.Error
quota_missing =
    Error.parse (ParseError.expected_response_not_found (codes "Quota, no quota response found"))

module _ {C : Type 0} (ch : Channel C) where
  unfoldable pub parse_names : RequestId → ℕ → List Item → C → List (Outcome Name) × Feed C
  unfolding select_name
  parse_names command_tag = take_filtered ch (λ resp. select_name resp resp.parsed) command_tag

  unfoldable pub parse_fetches : RequestId → ℕ → List Item → C → List (Outcome Fetch) × Feed C
  unfolding select_fetch
  parse_fetches command_tag = take_filtered ch (λ resp. select_fetch resp resp.parsed) command_tag

  unfoldable pub parse_expunge : RequestId → ℕ → List Item → C → List (Outcome ℕ) × Feed C
  unfolding select_expunge
  parse_expunge command_tag = take_filtered ch (λ resp. select_expunge resp.parsed) command_tag

  unfoldable pub parse_capabilities : RequestId → List Item → C → Outcome Capabilities × Feed C
  unfolding select_capabilities insert_capabilities
  parse_capabilities command_tag items c =
      let (caps, feed) =
        while_filtered ch (λ resp. select_capabilities resp.parsed) insert_capabilities command_tag
          [] items c in
      (caps >>= λ set. ok (record { set = set }), feed)

  unfoldable pub parse_noop : RequestId → List Item → C → Outcome (Unit {0}) × Feed C
  parse_noop command_tag =
      while_filtered ch {B = Unit {0}} (λ resp. none) (λ acc b. acc) command_tag tt

  unfoldable pub parse_ids : RequestId → List Item → C → Outcome (List ℕ) × Feed C
  unfolding select_ids insert_ids
  parse_ids command_tag =
      while_filtered ch (λ resp. select_ids resp.parsed) insert_ids command_tag []

  unfoldable pub parse_metadata :
      Bytes → RequestId → List Item → C → Outcome (List Metadata) × Feed C
  unfolding select_metadata
  parse_metadata mailbox_name command_tag =
      while_filtered ch (λ resp. select_metadata mailbox_name resp.parsed) ◌++◌ command_tag []

  unfoldable pub parse_id :
      RequestId → List Item → C → Outcome (Option (List (Bytes × Bytes))) × Feed C
  unfolding select_id
  parse_id command_tag =
      while_filtered ch (λ resp. select_id resp.parsed) (λ id res. res) command_tag none

  unfoldable pub parse_get_quota : RequestId → List Item → C → Outcome Quota × Feed C
  unfolding select_quota
  parse_get_quota command_tag items c =
      let (found, feed) =
        while_filtered ch (λ resp. select_quota resp.parsed) (λ old q. some q) command_tag none
          items c in
      (found >>= elim [ some q ↦ ok q | none ↦ Outcome.err quota_missing ], feed)

  unfoldable pub parse_get_quota_root :
      RequestId → List Item → C → Outcome (List QuotaRoot × List Quota) × Feed C
  unfolding select_root push_root
  parse_get_quota_root command_tag =
      while_filtered ch (λ resp. select_root resp.parsed) push_root command_tag ([], [])
