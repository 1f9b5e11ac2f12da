-- ===== src/Tests/Repository/StatusReplies.antt =====
-- The parts of the test `status` of src/client.rs.
use async_imap.Base.{ℕ, ◌≡◌, refl, some, none, List, [], ◌∷◌, ◌++◌}
use async_imap.Base.Text.{codes}
use async_imap.Client.Connection.{Connection}
use async_imap.Client.Login
use async_imap.Client.Mailboxes
use async_imap.Client.Quote.{quote, validate_str}
use async_imap.Client.Session
use async_imap.Client.Session.{Session}
use async_imap.Error.{Outcome, ok}
use async_imap.Proto.{ResponseCode, MailboxDatum, Response, StatusAttribute}
use async_imap.Tests.Support.{Queue, queue_channel}
use async_imap.Types.Mailbox
use async_imap.Types.Mailbox.{Mailbox}
use async_imap.Tests.Repository.{mock_session, tagged, written_buf}

abbrev status_uid_next : Outcome Mailbox × Session Queue
status_uid_next = Mailboxes.status queue_channel (codes "INBOX") (codes "(UIDNEXT)") (
    mock_session (
      Response.mailbox_data (MailboxDatum.status (codes "INBOX") (StatusAttribute.uid_next 25 ∷ []))
      ∷ tagged (codes "A0001") (some (ResponseCode.other 0))
          (codes "Status on selected mailbox completed (0.001 + 0.000 secs).")
      ∷ []))

status_uid_next_passes :
    (written_buf status_uid_next ≡ codes "A0001 STATUS \"INBOX\" (UIDNEXT)\r\n")
    × (status_uid_next.0 ≡ ok (record Mailbox.default { uid_next = some 25 }))
unfolding Mailboxes.status validate_str async_imap.Base.Text.contains quote Session.run_command
    async_imap.Client.Connection.run_command Session.new Login.new
    async_imap.Types.IdGenerator.next_id async_imap.Types.IdGenerator.tag_of
    async_imap.Parse.Mailbox.parse_status async_imap.Base.Text.equal
    async_imap.Parse.Mailbox.check_status async_imap.Parse.Mailbox.note_attributes
    async_imap.Base.foldl
status_uid_next_passes = (refl, refl)

abbrev status_recent : Outcome Mailbox × Session Queue
status_recent = Mailboxes.status queue_channel (codes "INBOX") (codes "(RECENT)") (
    mock_session (
      Response.mailbox_data (MailboxDatum.status (codes "INBOX") (StatusAttribute.recent 15 ∷ []))
      ∷ tagged (codes "A0001") none (codes "STATUS completed")
      ∷ []))

status_recent_passes :
    (written_buf status_recent ≡ codes "A0001 STATUS \"INBOX\" (RECENT)\r\n")
    × (status_recent.0 ≡ ok (record Mailbox.default { recent = 15 }))
unfolding Mailboxes.status validate_str async_imap.Base.Text.contains quote Session.run_command
    async_imap.Client.Connection.run_command Session.new Login.new
    async_imap.Types.IdGenerator.next_id async_imap.Types.IdGenerator.tag_of
    async_imap.Parse.Mailbox.parse_status async_imap.Base.Text.equal
    async_imap.Parse.Mailbox.check_status async_imap.Parse.Mailbox.note_attributes
    async_imap.Base.foldl
status_recent_passes = (refl, refl)

abbrev status_two : Outcome Mailbox × Session Queue
status_two = Mailboxes.status queue_channel (codes "blurdybloop") (codes "(UIDNEXT MESSAGES)") (
    mock_session (
      Response.mailbox_data (
        MailboxDatum.status (codes "blurdybloop")
          (StatusAttribute.messages 231 ∷ StatusAttribute.uid_next 44292 ∷ []))
      ∷ tagged (codes "A0001") none (codes "STATUS completed")
      ∷ []))

status_two_passes :
    (written_buf status_two ≡ codes "A0001 STATUS \"blurdybloop\" (UIDNEXT MESSAGES)\r\n")
    × (status_two.0 ≡ ok (record Mailbox.default { exists = 231; uid_next = some 44292 }))
unfolding Mailboxes.status validate_str async_imap.Base.Text.contains quote Session.run_command
    async_imap.Client.Connection.run_command Session.new Login.new
    async_imap.Types.IdGenerator.next_id async_imap.Types.IdGenerator.tag_of
    async_imap.Parse.Mailbox.parse_status async_imap.Base.Text.equal
    async_imap.Parse.Mailbox.check_status async_imap.Parse.Mailbox.note_attributes
    async_imap.Base.foldl
status_two_passes = (refl, refl)
