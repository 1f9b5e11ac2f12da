-- ===== src/Types/Flag.antt =====
-- `Flag` of src/types/mod.rs.
use async_imap.Base.{Option, none, some, ◌≡◌, arith, if◌then◌else◌}
use async_imap.Base.Text.{Bytes, codes, equal, equal_iff}

pub data Flag : Type 0 where
  seen answered flagged deleted draft recent may_create : Flag
  custom : Bytes → Flag

unfoldable pub system : Bytes → Option Flag
system s =
    if equal s (codes "\\Seen")
    then some seen
    else if equal s (codes "\\Answered")
    then some answered
    else if equal s (codes "\\Flagged")
    then some flagged
    else if equal s (codes "\\Deleted")
    then some deleted
    else if equal s (codes "\\Draft")
    then some draft
    else if equal s (codes "\\Recent")
    then some recent
    else if equal s (codes "\\*")
    then some may_create
    else none

-- `From<String>` and `From<&str>`.
unfoldable pub from : Bytes → Flag
unfolding system
from s = elim (system s) [ some f ↦ f | none ↦ custom s ]

-- The text that a flag has on the wire.
abbrev pub spelling : Flag → Bytes
spelling seen = codes "\\Seen"
spelling answered = codes "\\Answered"
spelling flagged = codes "\\Flagged"
spelling deleted = codes "\\Deleted"
spelling draft = codes "\\Draft"
spelling recent = codes "\\Recent"
spelling may_create = codes "\\*"
spelling (custom s) = s

-- The flag read from a text stands for exactly that text.
pub spelling-from : (s : Bytes) → spelling (from s) ≡ s
unfolding from
spelling-from s = ground (
  arith,
  equal_iff s (codes "\\Seen"),
  equal_iff s (codes "\\Answered"),
  equal_iff s (codes "\\Flagged"),
  equal_iff s (codes "\\Deleted"),
  equal_iff s (codes "\\Draft"),
  equal_iff s (codes "\\Recent"),
  equal_iff s (codes "\\*"),
)
