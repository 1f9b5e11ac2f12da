-- ===== src/Tests/Support.antt =====
-- A channel, a parser and sessions to run the theorems on.
use async_imap.Base.{
  ℕ, ◌<◌, ◌≡◌, refl, Bool, true, none, some, List, [], ◌∷◌, ◌++◌, leb, length, arith, if◌then◌else◌,
}
use async_imap.Base.Text.{Bytes, codes}
use async_imap.Channel.{Channel, ChannelLaws}
use async_imap.Client.Connection.{Connection}
use async_imap.Client.Session.{Session}
use async_imap.ImapStream.{Parsed, done, incomplete_unknown}
use async_imap.ImapStream.Laws.{ParserLaws}
use async_imap.Parse.{Item}
use async_imap.Proto.{Response}
use async_imap.Types.IdGenerator
use async_imap.Types.Wire.{ResponseData, UnsolicitedResponse}

-- A bounded queue.
pub record Queue : Type 0 where
  pub messages : List UnsolicitedResponse
  pub capacity : ℕ
  pub opened : Bool

abbrev pub queue_channel : Channel Queue
queue_channel = record {
  bounded = λ n. record { messages = []; capacity = n; opened = true };
  is_full = λ q. leb q.capacity (length q.messages);
  send = λ m q. if q.opened then some (record q { messages = q.messages ++ m ∷ [] }) else none;
}

abbrev pub queue_laws : ChannelLaws queue_channel
queue_laws = record {
  queue = λ q. q.messages;
  capacity = λ q. q.capacity;
  is_open = λ q. q.opened;
  is_full_lem = λ c. refl;
  bounded_lem = λ n. (refl, refl, refl);
  send_open = λ m c o h. (record c { messages = c.messages ++ m ∷ [] }, rw o refl, refl, refl, o);
  send_closed = λ m c o. rw o refl;
}

-- A parser that takes every byte for a response.
abbrev pub parse_byte : Bytes → Parsed
parse_byte [] = incomplete_unknown
parse_byte (b ∷ bs) = done bs (Response.other b)

pub parse_byte_laws : ParserLaws parse_byte
parse_byte_laws = record { done_lem = consumes }
  where
    consumes :
        (buf remaining : Bytes) (response : Response)
        → parse_byte buf ≡ done remaining response
        → (consumed : Bytes) × (buf ≡ consumed ++ remaining) × (0 < length consumed)
    consumes [] remaining response e = absurd (ground arith)
    consumes (b ∷ bs) remaining response e = (b ∷ [], ground arith, ground arith)

abbrev pub empty_channel : Queue
empty_channel = record { messages = []; capacity = 100; opened = true }

abbrev pub connection : List Item → Connection
connection items = record {
  stream = record { incoming = items; sent = []; faults = [] };
  request_ids = IdGenerator.new;
}

abbrev pub session : List Item → Session Queue
session items = record { conn = connection items; unsolicited = empty_channel }

abbrev pub response : Response → ResponseData
response parsed = record { owner = codes "* response"; parsed = parsed }
