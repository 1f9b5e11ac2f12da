-- ===== src/Tests/Replies.antt =====
-- The theorems on commands of src/client.rs and their whole replies, at concrete sessions.
use async_imap.Base.{
  ◌≡◌, refl, false, Option, none, some, List, [], ◌∷◌, ◌++◌, map, filter_map, flatten, last_or,
  arith,
}
use async_imap.Base.Text.{Bytes, codes, contains}
use async_imap.Client.Connection.Commands.{next_tag}
use async_imap.Client.Mailboxes.{or_text, list, lsub, capabilities, status, get_quota}
use async_imap.Client.Mailboxes.Answered.{status-Exchanged, get_quota-Exchanged}
use async_imap.Client.Messages.{fetch, uid_fetch, store, uid_store, expunge, uid_expunge, search}
use async_imap.Client.Messages.Streamed.{
  fetched, expunged, named, Streamed, fetch-Streamed, list-Streamed,
}
use async_imap.Client.Quote.{quote}
use async_imap.Client.Quote.LineEnds.{has_line_end}
use async_imap.Client.Session.{Session}
use async_imap.Client.Session.Exchanged.{Exchanged}
use async_imap.Error.{IoError, IoKind, IoMessage, IoResult}
use async_imap.Parse.{Item}
use async_imap.Parse.Loop.{Ending, tagged, ending_items, Ends, Within}
use async_imap.Parse.Mailbox.Laws.{Verdict, completed, verdict_items, verdict_outcome}
use async_imap.Parse.Mailbox.Reports.{attributes_in, Shows}
use async_imap.Parse.Readers.{member}
use async_imap.Parse.Readers.Quotas.{quota_result}
use async_imap.Parse.Readers.Reported.{IsReported, sent_in}
use async_imap.Parse.Received.{leftovers}
use async_imap.Parse.Streams.{InReply}
use async_imap.Proto.{
  RequestId, Status, Response, AttributeValue, MailboxDatum, StatusAttribute, CapabilityRef,
  QuotaRef, QuotaResourceNameRef,
}
use async_imap.Tests.Support.{Queue, queue_channel, queue_laws, connection, session, response}
use async_imap.Types.Capabilities.{Capabilities, member as member_of}
use async_imap.Types.IdGenerator.{next_id, tag_of}
use async_imap.Types.Mailbox.{Mailbox}
use async_imap.Types.Quota.{Quota}
use async_imap.Types.Wire.{ResponseData}

abbrev tag : RequestId
tag = next_tag (connection [])

abbrev interrupted : IoError
interrupted = record { kind = IoKind.other; message = IoMessage.text (codes "interrupted") }

abbrev storage_quota : QuotaRef
storage_quota = record {
  root_name = codes "#user";
  resources = record { name = QuotaResourceNameRef.storage; usage = 3; limit = 9 } ∷ [];
}

abbrev found : List ResponseData
found =
    response (Response.expunge 7)
    ∷ response (Response.mailbox_data (MailboxDatum.search (4 ∷ 9 ∷ 4 ∷ [])))
    ∷ response (Response.quota storage_quota)
    ∷ response (Response.fetch 3 (AttributeValue.uid 12 ∷ []))
    ∷ response (Response.mailbox_data (MailboxDatum.list [] none (codes "INBOX")))
    ∷ response (Response.capabilities (CapabilityRef.auth (codes "PLAIN") ∷ []))
    ∷ response (
        Response.mailbox_data
          (MailboxDatum.status (codes "INBOX") (StatusAttribute.messages 3 ∷ [])))
    ∷ []

abbrev completion : ResponseData
completion = response (Response.done (codes "A0001") Status.ok none none)

abbrev later : List Item
later = IoResult.ok (response (Response.expunge 8)) ∷ []

abbrev finished : Ending
finished = tagged completion later

found-Within : Within tag found
found-Within = (tt, (tt, (tt, (tt, (tt, (tt, (tt, tt)))))))

ends : Ends tag finished
unfolding next_id tag_of
ends = refl

abbrev answered : Session Queue
answered = session (map IoResult.ok found ++ ending_items finished)

-- An error of the stream between the responses.
abbrev items : List Item
items = IoResult.err interrupted ∷ map IoResult.ok found

items-InReply : InReply tag items
items-InReply = (tt, (tt, (tt, (tt, (tt, (tt, (tt, (tt, tt))))))))

abbrev broken : Session Queue
broken = session (items ++ IoResult.ok completion ∷ later)

abbrev set : Bytes
set = codes "1:9"

abbrev query : Bytes
query = codes "(UID)"

fetch-Streamed_example :
    Streamed queue_laws fetched
      (codes "FETCH " ++ (set ++ (codes " " ++ query)))
      broken
      items
      later
      (fetch queue_channel set query 10 broken)
    × Streamed queue_laws fetched
        (codes "UID FETCH " ++ (set ++ (codes " " ++ query)))
        broken
        items
        later
        (uid_fetch queue_channel set query 10 broken)
    × Streamed queue_laws fetched
        (codes "STORE " ++ (set ++ (codes " " ++ query)))
        broken
        items
        later
        (store queue_channel set query 10 broken)
    × Streamed queue_laws fetched
        (codes "UID STORE " ++ (set ++ (codes " " ++ query)))
        broken
        items
        later
        (uid_store queue_channel set query 10 broken)
    × Streamed queue_laws expunged
        (codes "EXPUNGE")
        broken
        items
        later
        (expunge queue_channel 10 broken)
    × Streamed queue_laws expunged
        (codes "UID EXPUNGE " ++ set)
        broken
        items
        later
        (uid_expunge queue_channel set 10 broken)
fetch-Streamed_example =
    fetch-Streamed queue_laws set query broken items completion later 10 refl refl items-InReply
      ends (omega arith) refl

abbrev pattern_text : Option Bytes
pattern_text = some (codes "*")

list-Streamed_example :
    Streamed queue_laws named
      (codes "LIST "
        ++ (quote (or_text none []) ++ (codes " " ++ or_text pattern_text (codes "\"\""))))
      broken
      items
      later
      (list queue_channel none pattern_text 10 broken)
    × Streamed queue_laws named
        (codes "LSUB " ++ (quote (or_text none []) ++ (codes " " ++ or_text pattern_text [])))
        broken
        items
        later
        (lsub queue_channel none pattern_text 10 broken)
list-Streamed_example =
    list-Streamed queue_laws none pattern_text broken items completion later 10 refl refl
      items-InReply ends (omega arith) refl

get_quota-Exchanged_example :
    (result : Option Quota) × IsReported (last_or none (filter_map sent_in found)) result
    × Exchanged queue_laws
        (codes "GETQUOTA " ++ quote set)
        answered
        (quota_result result finished)
        later
        (leftovers sent_in found)
        (get_quota queue_channel set answered)
get_quota-Exchanged_example =
    get_quota-Exchanged queue_laws set answered found finished refl refl found-Within ends refl

abbrev refused : Verdict
refused = completed (codes "x") Status.no none none later

abbrev denied : Session Queue
denied = session (map IoResult.ok found ++ verdict_items tag refused)

no_line_end : has_line_end (codes "INBOX") ≡ false
unfolding contains
no_line_end = refl

status-Exchanged_example :
    (mbox : Mailbox) × Shows (flatten (filter_map (attributes_in (codes "INBOX")) found)) mbox
    × Exchanged queue_laws
        (codes "STATUS " ++ (quote (codes "INBOX") ++ (codes " " ++ query)))
        denied
        (verdict_outcome mbox refused)
        later
        (leftovers (attributes_in (codes "INBOX")) found)
        (status queue_channel (codes "INBOX") query denied)
status-Exchanged_example =
    status-Exchanged queue_laws (codes "INBOX") query denied found refused no_line_end refl refl
      found-Within tt refl
