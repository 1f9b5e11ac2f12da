-- ===== src/Types/Quota.antt =====
-- src/types/quota.rs.
use async_imap.Base.{
  ℕ, ◌+◌, ◌-◌, ◌*◌, ◌/◌, ◌^◌, ◌≤◌, ◌<◌, min, List, map, ◌≡◌, ◌↔◌, arith, ◌==◌, if◌then◌else◌,
}
use async_imap.Base.Text.{Bytes}
use async_imap.Error.{Outcome, ok, panic}
use async_imap.Proto.{QuotaResourceNameRef, QuotaResourceRef, QuotaRef, QuotaRootRef}

pub data QuotaResourceName : Type 0 where
  storage message : QuotaResourceName
  atom : Bytes → QuotaResourceName

unfoldable pub from_resource_name : QuotaResourceNameRef → QuotaResourceName
from_resource_name QuotaResourceNameRef.message = message
from_resource_name QuotaResourceNameRef.storage = storage
from_resource_name (QuotaResourceNameRef.atom v) = atom v

pub record QuotaResource : Type 0 where
  pub name : QuotaResourceName
  pub usage : ℕ
  pub limit : ℕ

unfoldable pub from_resource : QuotaResourceRef → QuotaResource
from_resource r = record { name = from_resource_name r.name; usage = r.usage; limit = r.limit }

abbrev pub u64_max : ℕ
u64_max = 2 ^ 64 - 1

-- `u64::saturating_mul`, and a division that panics at zero.
unfoldable pub get_usage_percentage : QuotaResource → Outcome ℕ
get_usage_percentage r = if r.limit == 0 then panic else ok (min (r.usage * 100) u64_max / r.limit)

pub record Quota : Type 0 where
  pub root_name : Bytes
  pub resources : List QuotaResource

unfoldable pub from_quota : QuotaRef → Quota
from_quota q = record { root_name = q.root_name; resources = map from_resource q.resources }

pub record QuotaRoot : Type 0 where
  pub mailbox_name : Bytes
  pub quota_root_names : List Bytes

unfoldable pub from_quota_root : QuotaRootRef → QuotaRoot
from_quota_root r = record {
  mailbox_name = r.mailbox_name;
  quota_root_names = map (λ n. n) r.quota_root_names;
}

-- With a limit that is not 0 there is no panic, and the percentage is the usage times 100 over the
-- limit, rounded down, as long as that product fits in 64 bits.
pub get_usage_percentage_exact :
    (r : QuotaResource)
    → 0 < r.limit
    → r.usage * 100 < 2 ^ 64
    → (p : ℕ) × (get_usage_percentage r ≡ ok p)
      × (p * r.limit ≤ r.usage * 100)
      × (r.usage * 100 < (p + 1) * r.limit)
unfolding get_usage_percentage
get_usage_percentage_exact r h k = (r.usage * 100 / r.limit, ground arith, grind arith, grind arith)

-- The percentage of a resource as the server sent it panics exactly where its limit is 0.
pub get_usage_percentage_panics :
    (q : QuotaResourceRef) → (get_usage_percentage (from_resource q) ≡ panic) ↔ (q.limit ≡ 0)
unfolding get_usage_percentage from_resource
get_usage_percentage_panics q = ground arith
