-- ===== src/Types/Capabilities.antt =====
-- src/types/capabilities.rs. The hash set is a list that holds no value twice.
pub mod HasStr
use async_imap.Base.{
  ℕ, Bool, true, false, ◌||◌, List, [], ◌∷◌, none, some, leb, ltb, ◌==◌, length, take, drop,
  get_elem?, if◌then◌else◌,
}
use async_imap.Base.Text.{Bytes, codes, equal, eq_ignore_ascii_case}
use async_imap.Error.{Outcome, ok, panic}
use async_imap.Proto.{CapabilityRef}

pub data Capability : Type 0 where
  imap4rev1 : Capability
  auth : Bytes → Capability
  atom : Bytes → Capability

unfoldable pub from : CapabilityRef → Capability
from CapabilityRef.imap4rev1 = imap4rev1
from (CapabilityRef.auth s) = auth s
from (CapabilityRef.atom s) = atom s

-- The derived `==`.
unfoldable pub same : Capability → Capability → Bool
same imap4rev1 imap4rev1 = true
same (auth s) (auth t) = equal s t
same (atom s) (atom t) = equal s t
same _ _ = false

pub record Capabilities : Type 0 where
  pub set : List Capability

unfoldable pub member : Capability → List Capability → Bool
member c [] = false
member c (d ∷ ds) = same d c || member c ds

-- `HashSet::insert`.
unfoldable pub insert : Capability → List Capability → List Capability
insert c cs = if member c cs then cs else c ∷ cs

unfoldable pub has : Capabilities → Capability → Bool
has caps cap = member cap caps.set

abbrev pub imap4rev1_capability : Bytes
imap4rev1_capability = codes "IMAP4rev1"

abbrev pub auth_capability_prefix : Bytes
auth_capability_prefix = codes "AUTH="

-- `str::is_char_boundary`, of the standard library: the byte at `n` does not go on a character.
unfoldable pub is_char_boundary : Bytes → ℕ → Bool
is_char_boundary s n = elim (get_elem? s n) [
  | none ↦ n == length s
  | some b ↦ ltb b 128 || leb 192 b
]

-- `str::split_at`, which panics inside a character.
unfoldable pub split_at : Bytes → ℕ → Outcome (Bytes × Bytes)
split_at s n = if is_char_boundary s n then ok (take n s, drop n s) else panic

-- the test of the prefix, once the text is split
has_split : Capabilities → Bytes → Bytes × Bytes → Bool
has_split caps s (pre, val) =
    if eq_ignore_ascii_case pre auth_capability_prefix
    then has caps (auth val)
    else has caps (atom s)

unfoldable pub has_str : Capabilities → Bytes → Outcome Bool
unfolding has_split split_at is_char_boundary
has_str caps s =
    if eq_ignore_ascii_case s imap4rev1_capability
    then ok (has caps imap4rev1)
    else if ltb (length auth_capability_prefix) (length s)
    then elim (split_at s (length auth_capability_prefix)) [
      | ok halves ↦ ok (has_split caps s halves)
      | Outcome.err e ↦ Outcome.err e
      | panic ↦ panic
    ]
    else ok (has caps (atom s))

-- The items of the iterator, in the order of the list.
unfoldable pub iter : Capabilities → List Capability
iter caps = caps.set

unfoldable pub len : Capabilities → ℕ
len caps = length caps.set

unfoldable pub is_empty : Capabilities → Bool
is_empty caps = length caps.set == 0
