-- ===== src/Parse/Reply.antt =====
-- Which items of the stream are part of the reply to a command, and which response ends it: what
-- `filter_sync` of src/parse.rs is to tell apart.
use async_imap.Base.{◌≡◌, ◌≢◌, refl, true, false, arith}
use async_imap.Base.Text.{equal_iff}
use async_imap.Error.{IoResult}
use async_imap.Parse.{Item, done_with_other_tag, filter_sync}
use async_imap.Proto.{RequestId, Response}
use async_imap.Types.Wire.{ResponseData}

-- Any response but the tagged one of the command.
abbrev pub IsOther : RequestId → Response → Type 0
IsOther tag (Response.done other _ _ _) = other ≢ tag
IsOther tag _ = Unit

-- The errors of the stream are a part of the reply too.
abbrev pub IsPart : RequestId → Item → Type 0
IsPart tag (IoResult.ok r) = IsOther tag r.parsed
IsPart tag (IoResult.err e) = Unit

-- The tagged response of the command, with any status.
abbrev pub Completes : RequestId → Response → Type 0
Completes tag (Response.done other _ _ _) = other ≡ tag
Completes tag _ = ⊥

other_tag : (tag : RequestId) (x : Response) → IsOther tag x → done_with_other_tag tag x ≡ true
unfolding done_with_other_tag
other_tag tag (Response.done other _ _ _) h = ground (arith, equal_iff other tag)
other_tag tag _ h = refl

same_tag : (tag : RequestId) (x : Response) → Completes tag x → done_with_other_tag tag x ≡ false
unfolding done_with_other_tag
same_tag tag (Response.done other _ _ _) h = ground (arith, equal_iff other tag)
same_tag tag _ h = absurd h

pub filter_sync-IsPart : (tag : RequestId) (i : Item) → IsPart tag i → filter_sync i tag ≡ true
unfolding filter_sync
filter_sync-IsPart tag (IoResult.ok r) h = other_tag tag r.parsed h
filter_sync-IsPart tag (IoResult.err e) h = refl

pub filter_sync-Completes :
    (tag : RequestId) (d : ResponseData)
    → Completes tag d.parsed
    → filter_sync (IoResult.ok d) tag ≡ false
unfolding filter_sync
filter_sync-Completes tag d h = same_tag tag d.parsed h
