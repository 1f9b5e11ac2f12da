-- ===== src/Parse/Readers/Reported.antt =====
-- The quotas of src/types/quota.rs, against what the server has sent.
use async_imap.Base.{
  ◌≡◌, refl, fun_ext, ap, inl, inr, ◌⊎◌, Option, none, some, List, [], ◌∷◌, map, filter_map,
  last_or,
}
use async_imap.Parse.Readers.{select_quota}
use async_imap.Parse.Readers.Quotas.{quota_in}
use async_imap.Parse.Received.{leftover, leftovers, leftover_skip, leftover_take}
use async_imap.Proto.{QuotaRef, QuotaResourceRef, QuotaResourceNameRef, Response}
use async_imap.Types.Quota.{
  Quota, QuotaResource, QuotaResourceName, from_resource_name, from_resource, from_quota,
}
use async_imap.Types.Wire.{ResponseData}

-- A `QUOTA` response.
abbrev pub sent_by : Response → Option QuotaRef
sent_by (Response.quota q) = some q
sent_by _ = none

abbrev pub sent_in : ResponseData → Option QuotaRef
sent_in r = sent_by r.parsed

abbrev pub IsSameName : QuotaResourceNameRef → QuotaResourceName → Type 0
IsSameName QuotaResourceNameRef.storage QuotaResourceName.storage = Unit
IsSameName QuotaResourceNameRef.message QuotaResourceName.message = Unit
IsSameName (QuotaResourceNameRef.atom v) (QuotaResourceName.atom w) = w ≡ v
IsSameName _ _ = ⊥

-- The resources one by one, in order, with their usages and limits.
abbrev pub AreSame : List QuotaResourceRef → List QuotaResource → Type 0
AreSame [] [] = Unit
AreSame (q ∷ qs) (r ∷ rs) =
    IsSameName q.name r.name × (r.usage ≡ q.usage) × (r.limit ≡ q.limit) × AreSame qs rs
AreSame _ _ = ⊥

-- A quota that says what the response says, or none where there is none.
abbrev pub IsReported : Option QuotaRef → Option Quota → Type 0
IsReported none none = Unit
IsReported (some q) (some p) = (p.root_name ≡ q.root_name) × AreSame q.resources p.resources
IsReported _ _ = ⊥

from_resource_name-IsSameName : (n : QuotaResourceNameRef) → IsSameName n (from_resource_name n)
unfolding from_resource_name
from_resource_name-IsSameName QuotaResourceNameRef.storage = tt
from_resource_name-IsSameName QuotaResourceNameRef.message = tt
from_resource_name-IsSameName (QuotaResourceNameRef.atom v) = refl

from_resource-AreSame : (qs : List QuotaResourceRef) → AreSame qs (map from_resource qs)
unfolding from_resource
from_resource-AreSame [] = tt
from_resource-AreSame (q ∷ qs) =
    (from_resource_name-IsSameName q.name, refl, refl, from_resource-AreSame qs)

from_quota-IsReported : (q : QuotaRef) → IsReported (some q) (some (from_quota q))
unfolding from_quota
from_quota-IsReported q = (refl, from_resource-AreSame q.resources)

-- The reader selects the `QUOTA` responses, and no others.
selected :
    (x : Response)
    → ((sent_by x ≡ none) × (select_quota x ≡ none))
      ⊎ ((q : QuotaRef) × (sent_by x ≡ some q) × (select_quota x ≡ some (from_quota q)))
unfolding select_quota
selected (Response.quota q) = inr (q, refl, refl)
selected _ = inl (refl, refl)

leftover-sent_in : (r : ResponseData) → leftover quota_in r ≡ leftover sent_in r
leftover-sent_in r = elim (selected r.parsed) [
  | inl (s, q) ↦ rw (leftover_skip quota_in r q, leftover_skip sent_in r s) refl
  | inr (_, s, q) ↦ rw (leftover_take quota_in r q, leftover_take sent_in r s) refl
]

pub leftovers-sent_in : (rs : List ResponseData) → leftovers quota_in rs ≡ leftovers sent_in rs
leftovers-sent_in rs = ap (λ f. filter_map f rs) (fun_ext leftover-sent_in)

pub last_or-IsReported :
    (rs : List ResponseData) (d : Option QuotaRef) (p : Option Quota)
    → IsReported d p
    → IsReported (last_or d (filter_map sent_in rs)) (last_or p (filter_map quota_in rs))
unfolding filter_map last_or
last_or-IsReported [] d p h = h
last_or-IsReported (r ∷ rs) d p h = elim (selected r.parsed) [
  | inl (s, q) ↦ rw (s, q) (last_or-IsReported rs d p h)
  | inr (x, s, q) ↦
      rw (s, q) (last_or-IsReported rs (some x) (some (from_quota x)) (from_quota-IsReported x))
]
