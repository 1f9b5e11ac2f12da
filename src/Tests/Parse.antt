-- ===== src/Tests/Parse.antt =====
-- The theorems on src/parse.rs at concrete replies.
use async_imap.Base.{◌≡◌, refl, none, some, List, [], ◌∷◌, ◌++◌, map, filter_map}
use async_imap.Base.Text.{codes}
use async_imap.Error.{IoResult, ok}
use async_imap.Parse.{Item}
use async_imap.Parse.Loop.{Ending, tagged, Ends, Within}
use async_imap.Parse.Mailbox.{parse_mailbox}
use async_imap.Parse.Mailbox.Fields.{Describes}
use async_imap.Parse.Mailbox.Laws.{
  Verdict, completed, verdict_items, verdict_outcome, offered, parse_mailbox_lem,
}
use async_imap.Parse.Readers.{parse_ids, parse_capabilities, parse_metadata, parse_noop}
use async_imap.Parse.Readers.Refusals.{completion, refusal_is_success}
use async_imap.Parse.Received.{Ran}
use async_imap.Proto.{RequestId, Status, Response, MailboxDatum, StatusAttribute}
use async_imap.Tests.Support.{queue_channel, queue_laws, empty_channel, response}
use async_imap.Types.Mailbox.{Mailbox}
use async_imap.Types.Wire.{ResponseData}

abbrev tag : RequestId
tag = codes "A0002"

-- `* 7 EXPUNGE` and `* SEARCH 4 9 4`.
abbrev found : List ResponseData
found =
    response (Response.expunge 7)
    ∷ response (Response.mailbox_data (MailboxDatum.search (4 ∷ 9 ∷ 4 ∷ [])))
    ∷ []

abbrev completed_ok : ResponseData
completed_ok = response (Response.done (codes "A0002") Status.ok none (some (codes "done")))

abbrev finished : Ending
finished = tagged completed_ok []

within : Within tag found
within = (tt, (tt, tt))

ends : Ends tag finished
ends = refl

parse_mailbox_lem_example :
    (mbox : Mailbox) × Describes
      (Response.mailbox_data (MailboxDatum.exists 5) ∷ Response.expunge 7 ∷ [])
      mbox
    × Ran queue_laws empty_channel
        (parse_mailbox queue_channel tag
          (IoResult.ok (response (Response.mailbox_data (MailboxDatum.exists 5)))
            ∷ IoResult.ok (response (Response.expunge 7))
            ∷ verdict_items tag (completed (codes "x") Status.no none none []))
          empty_channel)
        (verdict_outcome mbox (completed (codes "x") Status.no none none []))
        []
        (filter_map offered (
          response (Response.mailbox_data (MailboxDatum.exists 5))
          ∷ response (Response.expunge 7)
          ∷ []))
parse_mailbox_lem_example =
    parse_mailbox_lem queue_laws tag
      (response (Response.mailbox_data (MailboxDatum.exists 5))
        ∷ response (Response.expunge 7)
        ∷ [])
      (completed (codes "x") Status.no none none []) empty_channel (tt, (tt, tt)) tt refl

abbrev ok_completion : Item
ok_completion = completion (codes "x") tag Status.ok none none

abbrev no_completion : Item
no_completion = completion (codes "y") tag Status.no none none

refusal_is_success_example :
    ((parse_ids queue_channel tag (map IoResult.ok found ++ ok_completion ∷ []) empty_channel).0
      ≡ (parse_ids queue_channel tag (map IoResult.ok found ++ no_completion ∷ []) empty_channel).0)
    × ((parse_capabilities queue_channel tag
          (map IoResult.ok found ++ ok_completion ∷ [])
          empty_channel).0
        ≡ (parse_capabilities queue_channel tag
            (map IoResult.ok found ++ no_completion ∷ [])
            empty_channel).0)
    × ((parse_metadata queue_channel [] tag
          (map IoResult.ok found ++ ok_completion ∷ [])
          empty_channel).0
        ≡ (parse_metadata queue_channel [] tag
            (map IoResult.ok found ++ no_completion ∷ [])
            empty_channel).0)
    × ((parse_noop queue_channel tag (ok_completion ∷ []) empty_channel).0 ≡ ok tt)
refusal_is_success_example =
    refusal_is_success queue_channel tag (codes "x") (codes "y") Status.ok Status.no none none none
      none [] [] (map IoResult.ok found) empty_channel

abbrev eof_verdict : Verdict
eof_verdict = Verdict.eof

-- Two `STATUS` responses, of which one is for another mailbox.
abbrev statuses : List ResponseData
statuses =
    response (
      Response.mailbox_data (MailboxDatum.status (codes "INBOX") (StatusAttribute.messages 3 ∷ [])))
    ∷ response (
        Response.mailbox_data
          (MailboxDatum.status (codes "Sent") (StatusAttribute.messages 9 ∷ [])))
    ∷ []
