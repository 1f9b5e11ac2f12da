-- ===== src/Tests/Repository/Replies.antt =====
-- The tests of src/client.rs on commands that read a reply.
use async_imap.Base.{ℕ, ◌≡◌, refl, some, none, List, [], ◌∷◌, ◌++◌}
use async_imap.Base.Text.{codes}
use async_imap.Client.Connection.{Connection}
use async_imap.Client.Login
use async_imap.Client.Mailboxes
use async_imap.Client.Messages
use async_imap.Client.Quote.{quote, validate_str}
use async_imap.Client.Session
use async_imap.Client.Session.{Session}
use async_imap.Error.{Error, Outcome, ok}
use async_imap.Proto.{ResponseCode, MailboxDatum, CapabilityRef, Response}
use async_imap.Tests.Support.{Queue, queue_channel}
use async_imap.Types.Capabilities
use async_imap.Types.Capabilities.{Capabilities}
use async_imap.Types.Fetch.{Fetch}
use async_imap.Types.Flag
use async_imap.Types.Mailbox.{Mailbox}
use async_imap.Tests.Repository.{
  eof, mock_session, tagged, untagged, written_buf, four_capabilities,
}

abbrev examine : Outcome Mailbox × Session Queue
examine = Mailboxes.examine queue_channel (codes "INBOX") (
    mock_session (
      Response.mailbox_data (
        MailboxDatum.flags (
          codes "\\Answered"
          ∷ codes "\\Flagged"
          ∷ codes "\\Deleted"
          ∷ codes "\\Seen"
          ∷ codes "\\Draft"
          ∷ []))
      ∷ untagged (some (ResponseCode.permanent_flags [])) (codes "Read-only mailbox.")
      ∷ Response.mailbox_data (MailboxDatum.exists 1)
      ∷ Response.mailbox_data (MailboxDatum.recent 1)
      ∷ untagged (some (ResponseCode.unseen 1)) (codes "First unseen.")
      ∷ untagged (some (ResponseCode.uid_validity 1257842737)) (codes "UIDs valid")
      ∷ untagged (some (ResponseCode.uid_next 2)) (codes "Predicted next UID")
      ∷ tagged (codes "A0001") (some (ResponseCode.other 0)) (codes "Select completed.")
      ∷ []))

examine_passes :
    (examine.0
      ≡ ok (record {
        flags = Flag.answered ∷ Flag.flagged ∷ Flag.deleted ∷ Flag.seen ∷ Flag.draft ∷ [];
        exists = 1;
        recent = 1;
        unseen = some 1;
        permanent_flags = [];
        uid_next = some 2;
        uid_validity = some 1257842737;
        highest_modseq = none;
      }))
    × (written_buf examine ≡ codes "A0001 EXAMINE " ++ (quote (codes "INBOX") ++ codes "\r\n"))
unfolding Mailboxes.examine validate_str async_imap.Base.Text.contains quote Session.run_command
    async_imap.Client.Connection.run_command Session.new Login.new
    async_imap.Parse.Mailbox.parse_mailbox async_imap.Parse.Mailbox.check_status
    async_imap.Base.Text.equal async_imap.Types.IdGenerator.next_id
    async_imap.Types.IdGenerator.tag_of Flag.from
examine_passes = (refl, refl)

abbrev select : Outcome Mailbox × Session Queue
select = Mailboxes.select queue_channel (codes "INBOX") (
    mock_session (
      Response.mailbox_data (
        MailboxDatum.flags (
          codes "\\Answered"
          ∷ codes "\\Flagged"
          ∷ codes "\\Deleted"
          ∷ codes "\\Seen"
          ∷ codes "\\Draft"
          ∷ []))
      ∷ untagged
          (some (
            ResponseCode.permanent_flags (
              codes "\\*"
              ∷ codes "\\Answered"
              ∷ codes "\\Flagged"
              ∷ codes "\\Deleted"
              ∷ codes "\\Draft"
              ∷ codes "\\Seen"
              ∷ [])))
          (codes "Read-only mailbox.")
      ∷ Response.mailbox_data (MailboxDatum.exists 1)
      ∷ Response.mailbox_data (MailboxDatum.recent 1)
      ∷ untagged (some (ResponseCode.unseen 1)) (codes "First unseen.")
      ∷ untagged (some (ResponseCode.uid_validity 1257842737)) (codes "UIDs valid")
      ∷ untagged (some (ResponseCode.uid_next 2)) (codes "Predicted next UID")
      ∷ untagged (some (ResponseCode.highest_mod_seq 90060115205545359))
          (codes "Highest mailbox modsequence")
      ∷ tagged (codes "A0001") (some (ResponseCode.other 0)) (codes "Select completed.")
      ∷ []))

select_passes :
    (select.0
      ≡ ok (record {
        flags = Flag.answered ∷ Flag.flagged ∷ Flag.deleted ∷ Flag.seen ∷ Flag.draft ∷ [];
        exists = 1;
        recent = 1;
        unseen = some 1;
        permanent_flags =
            Flag.may_create ∷ Flag.answered ∷ Flag.flagged ∷ Flag.deleted ∷ Flag.draft ∷ Flag.seen
            ∷ [];
        uid_next = some 2;
        uid_validity = some 1257842737;
        highest_modseq = some 90060115205545359;
      }))
    × (written_buf select ≡ codes "A0001 SELECT " ++ (quote (codes "INBOX") ++ codes "\r\n"))
unfolding Mailboxes.select validate_str async_imap.Base.Text.contains quote Session.run_command
    async_imap.Client.Connection.run_command Session.new Login.new
    async_imap.Parse.Mailbox.parse_mailbox async_imap.Parse.Mailbox.check_status
    async_imap.Base.Text.equal async_imap.Types.IdGenerator.next_id
    async_imap.Types.IdGenerator.tag_of Flag.from
select_passes = (refl, refl)

abbrev search : Outcome (List ℕ) × Session Queue
search = Messages.search queue_channel (codes "Unseen") (
    mock_session (
      Response.mailbox_data (MailboxDatum.search (1 ∷ 2 ∷ 3 ∷ 4 ∷ 5 ∷ []))
      ∷ tagged (codes "A0001") none (codes "Search completed")
      ∷ []))

search_passes :
    (search.0 ≡ ok (5 ∷ 4 ∷ 3 ∷ 2 ∷ 1 ∷ []))
    × (written_buf search ≡ codes "A0001 SEARCH Unseen\r\n")
unfolding Messages.search Session.run_command async_imap.Client.Connection.run_command Session.new
    Login.new async_imap.Parse.Readers.parse_ids async_imap.Parse.while_filtered
    async_imap.Parse.filter_sync async_imap.Base.Text.equal async_imap.Types.IdGenerator.next_id
    async_imap.Types.IdGenerator.tag_of async_imap.Base.foldl async_imap.Parse.Readers.insert
search_passes = (refl, refl)

abbrev uid_search : Outcome (List ℕ) × Session Queue
uid_search = Messages.uid_search queue_channel (codes "Unseen") (
    mock_session (
      Response.mailbox_data (MailboxDatum.search (1 ∷ 2 ∷ 3 ∷ 4 ∷ 5 ∷ []))
      ∷ tagged (codes "A0001") none (codes "Search completed")
      ∷ []))

uid_search_passes :
    (uid_search.0 ≡ ok (5 ∷ 4 ∷ 3 ∷ 2 ∷ 1 ∷ []))
    × (written_buf uid_search ≡ codes "A0001 UID SEARCH Unseen\r\n")
unfolding Messages.uid_search Session.run_command async_imap.Client.Connection.run_command
    Session.new Login.new async_imap.Parse.Readers.parse_ids async_imap.Parse.while_filtered
    async_imap.Parse.filter_sync async_imap.Base.Text.equal async_imap.Types.IdGenerator.next_id
    async_imap.Types.IdGenerator.tag_of async_imap.Base.foldl async_imap.Parse.Readers.insert
uid_search_passes = (refl, refl)

abbrev uid_search_unordered : Outcome (List ℕ) × Session Queue
uid_search_unordered = Messages.uid_search queue_channel (codes "Unseen") (
    mock_session (
      Response.mailbox_data (MailboxDatum.search (1 ∷ 2 ∷ 3 ∷ 4 ∷ 5 ∷ []))
      ∷ tagged (codes "A0002") none (codes "CAPABILITY completed")
      ∷ tagged (codes "A0001") none (codes "Search completed")
      ∷ []))

uid_search_unordered_passes :
    (uid_search_unordered.0 ≡ ok (5 ∷ 4 ∷ 3 ∷ 2 ∷ 1 ∷ []))
    × (written_buf uid_search_unordered ≡ codes "A0001 UID SEARCH Unseen\r\n")
unfolding Messages.uid_search Session.run_command async_imap.Client.Connection.run_command
    Session.new Login.new async_imap.Parse.Readers.parse_ids async_imap.Parse.while_filtered
    async_imap.Parse.filter_sync async_imap.Base.Text.equal async_imap.Types.IdGenerator.next_id
    async_imap.Types.IdGenerator.tag_of async_imap.Parse.handle_unilateral async_imap.Base.foldl
    async_imap.Parse.Readers.insert
uid_search_unordered_passes = (refl, refl)

abbrev capability : Outcome Capabilities × Session Queue
capability = Mailboxes.capabilities queue_channel (
    mock_session (
      Response.capabilities (
        CapabilityRef.imap4rev1
        ∷ CapabilityRef.atom (codes "STARTTLS")
        ∷ CapabilityRef.auth (codes "GSSAPI")
        ∷ CapabilityRef.atom (codes "LOGINDISABLED")
        ∷ [])
      ∷ tagged (codes "A0001") none (codes "CAPABILITY completed")
      ∷ []))

capability_passes :
    (capability.0 ≡ ok four_capabilities) × (written_buf capability ≡ codes "A0001 CAPABILITY\r\n")
unfolding Mailboxes.capabilities Session.run_command async_imap.Client.Connection.run_command
    Session.new Login.new async_imap.Parse.Readers.parse_capabilities
    async_imap.Parse.while_filtered async_imap.Parse.filter_sync async_imap.Base.Text.equal
    async_imap.Types.IdGenerator.next_id async_imap.Types.IdGenerator.tag_of async_imap.Base.foldl
    Capabilities.insert Capabilities.member Capabilities.same Capabilities.from
capability_passes = (refl, refl)

abbrev fetch_unexpected_eof : Outcome (List (Outcome Fetch)) × Session Queue
fetch_unexpected_eof =
    Messages.uid_fetch queue_channel (codes "1:*") (codes "(FLAGS BODY.PEEK[])") 1
      (mock_session ([]))

fetch_unexpected_eof_passes :
    (fetch_unexpected_eof.0 ≡ ok (Outcome.err (Error.io eof) ∷ []))
    × (written_buf fetch_unexpected_eof ≡ codes "A0001 UID FETCH 1:* (FLAGS BODY.PEEK[])\r\n")
unfolding Messages.uid_fetch Session.run_command async_imap.Client.Connection.run_command
    Session.new Login.new async_imap.Parse.Readers.parse_fetches async_imap.Parse.take_filtered
    async_imap.Types.IdGenerator.next_id async_imap.Types.IdGenerator.tag_of
fetch_unexpected_eof_passes = (refl, refl)
