-- ===== src/Tests/Repository/MetadataReplies.antt =====
-- The parts of the test `get_metadata` of src/client.rs.
use async_imap.Base.{◌≡◌, refl, none, some, List, [], ◌∷◌}
use async_imap.Base.Text.{Bytes, codes}
use async_imap.Client.Mailboxes
use async_imap.Client.Session.{Session}
use async_imap.Error.{Outcome, ok}
use async_imap.Proto.{Metadata, MailboxDatum, Response}
use async_imap.Tests.Repository.{mock_session, tagged, written_buf}
use async_imap.Tests.Support.{Queue, queue_channel}

-- `* METADATA`, and the completion of the command.
abbrev metadata : Bytes → List Metadata → Response
metadata mailbox values = Response.mailbox_data (MailboxDatum.metadata_solicited mailbox values)

abbrev complete : Bytes → Response
complete text = tagged (codes "A0001") none text

abbrev get_metadata_one : Outcome (List Metadata) × Session Queue
get_metadata_one =
    Mailboxes.get_metadata queue_channel (codes "INBOX") [] (codes "/private/comment") (
      mock_session (
        metadata (codes "INBOX")
          (record { entry = codes "/private/comment"; value = some (codes "My own comment") } ∷ [])
        ∷ complete (codes "GETMETADATA complete")
        ∷ []))

get_metadata_one_passes :
    (written_buf get_metadata_one ≡ codes "A0001 GETMETADATA \"INBOX\" /private/comment\r\n")
    × (get_metadata_one.0
        ≡ ok (
            record { entry = codes "/private/comment"; value = some (codes "My own comment") }
            ∷ []))
unfolding Mailboxes.get_metadata async_imap.Client.Session.run_command
    async_imap.Client.Connection.run_command async_imap.Client.Session.new
    async_imap.Client.Login.new async_imap.Types.IdGenerator.next_id
    async_imap.Types.IdGenerator.tag_of async_imap.Client.Quote.quote
    async_imap.Parse.Readers.parse_metadata async_imap.Parse.while_filtered
    async_imap.Parse.filter_sync async_imap.Base.Text.equal
get_metadata_one_passes = (refl, refl)

abbrev get_metadata_two : Outcome (List Metadata) × Session Queue
get_metadata_two =
    Mailboxes.get_metadata queue_channel (codes "INBOX") []
      (codes "(/shared/comment /private/comment)")
      (mock_session (
        metadata (codes "INBOX") (
          record { entry = codes "/shared/comment"; value = some (codes "Shared comment") }
          ∷ record { entry = codes "/private/comment"; value = some (codes "My own comment") }
          ∷ [])
        ∷ complete (codes "GETMETADATA complete")
        ∷ []))

get_metadata_two_passes :
    (written_buf get_metadata_two
      ≡ codes "A0001 GETMETADATA \"INBOX\" (/shared/comment /private/comment)\r\n")
    × (get_metadata_two.0
        ≡ ok (
            record { entry = codes "/shared/comment"; value = some (codes "Shared comment") }
            ∷ record { entry = codes "/private/comment"; value = some (codes "My own comment") }
            ∷ []))
unfolding Mailboxes.get_metadata async_imap.Client.Session.run_command
    async_imap.Client.Connection.run_command async_imap.Client.Session.new
    async_imap.Client.Login.new async_imap.Types.IdGenerator.next_id
    async_imap.Types.IdGenerator.tag_of async_imap.Client.Quote.quote
    async_imap.Parse.Readers.parse_metadata async_imap.Parse.while_filtered
    async_imap.Parse.filter_sync async_imap.Base.Text.equal
get_metadata_two_passes = (refl, refl)

abbrev get_metadata_literals : Outcome (List Metadata) × Session Queue
get_metadata_literals =
    Mailboxes.get_metadata queue_channel (codes "") [] (codes "(/shared/comment /shared/admin)") (
      mock_session (
        metadata (codes "") (
          record { entry = codes "/shared/comment"; value = some (codes "Chatmail server") }
          ∷ record {
            entry = codes "/shared/admin";
            value = some (codes "mailto:root@nine.testrun.org");
          }
          ∷ [])
        ∷ complete (codes "OK Getmetadata completed (0.001 + 0.000 secs).")
        ∷ []))

get_metadata_literals_passes :
    (written_buf get_metadata_literals
      ≡ codes "A0001 GETMETADATA \"\" (/shared/comment /shared/admin)\r\n")
    × (get_metadata_literals.0
        ≡ ok (
            record { entry = codes "/shared/comment"; value = some (codes "Chatmail server") }
            ∷ record {
              entry = codes "/shared/admin";
              value = some (codes "mailto:root@nine.testrun.org");
            }
            ∷ []))
unfolding Mailboxes.get_metadata async_imap.Client.Session.run_command
    async_imap.Client.Connection.run_command async_imap.Client.Session.new
    async_imap.Client.Login.new async_imap.Types.IdGenerator.next_id
    async_imap.Types.IdGenerator.tag_of async_imap.Client.Quote.quote
    async_imap.Parse.Readers.parse_metadata async_imap.Parse.while_filtered
    async_imap.Parse.filter_sync async_imap.Base.Text.equal
get_metadata_literals_passes = (refl, refl)

abbrev get_metadata_apart : Outcome (List Metadata) × Session Queue
get_metadata_apart =
    Mailboxes.get_metadata queue_channel (codes "") [] (codes "(/shared/comment /shared/admin)") (
      mock_session (
        metadata (codes "")
          (record { entry = codes "/shared/comment"; value = some (codes "Chatmail server") } ∷ [])
        ∷ metadata (codes "") (
            record {
              entry = codes "/shared/admin";
              value = some (codes "mailto:root@nine.testrun.org");
            }
            ∷ [])
        ∷ complete (codes "OK Getmetadata completed (0.001 + 0.000 secs).")
        ∷ []))

get_metadata_apart_passes :
    (written_buf get_metadata_apart
      ≡ codes "A0001 GETMETADATA \"\" (/shared/comment /shared/admin)\r\n")
    × (get_metadata_apart.0
        ≡ ok (
            record { entry = codes "/shared/comment"; value = some (codes "Chatmail server") }
            ∷ record {
              entry = codes "/shared/admin";
              value = some (codes "mailto:root@nine.testrun.org");
            }
            ∷ []))
unfolding Mailboxes.get_metadata async_imap.Client.Session.run_command
    async_imap.Client.Connection.run_command async_imap.Client.Session.new
    async_imap.Client.Login.new async_imap.Types.IdGenerator.next_id
    async_imap.Types.IdGenerator.tag_of async_imap.Client.Quote.quote
    async_imap.Parse.Readers.parse_metadata async_imap.Parse.while_filtered
    async_imap.Parse.filter_sync async_imap.Base.Text.equal
get_metadata_apart_passes = (refl, refl)

abbrev get_metadata_nil : Outcome (List Metadata) × Session Queue
get_metadata_nil =
    Mailboxes.get_metadata queue_channel (codes "") [] (codes "(/shared/comment /shared/admin)") (
      mock_session (
        metadata (codes "") (
          record { entry = codes "/shared/comment"; value = none }
          ∷ record { entry = codes "/shared/admin"; value = none }
          ∷ [])
        ∷ complete (codes "OK Getmetadata completed (0.001 + 0.000 secs).")
        ∷ []))

get_metadata_nil_passes :
    (written_buf get_metadata_nil
      ≡ codes "A0001 GETMETADATA \"\" (/shared/comment /shared/admin)\r\n")
    × (get_metadata_nil.0
        ≡ ok (
            record { entry = codes "/shared/comment"; value = none }
            ∷ record { entry = codes "/shared/admin"; value = none }
            ∷ []))
unfolding Mailboxes.get_metadata async_imap.Client.Session.run_command
    async_imap.Client.Connection.run_command async_imap.Client.Session.new
    async_imap.Client.Login.new async_imap.Types.IdGenerator.next_id
    async_imap.Types.IdGenerator.tag_of async_imap.Client.Quote.quote
    async_imap.Parse.Readers.parse_metadata async_imap.Parse.while_filtered
    async_imap.Parse.filter_sync async_imap.Base.Text.equal
get_metadata_nil_passes = (refl, refl)
