-- ===== src/Tests/Repository/Commands.antt =====
-- The tests of src/client.rs on commands that check their completion.
use async_imap.Base.{ℕ, ◌≡◌, refl, some, none, List, [], ◌∷◌, ◌++◌}
use async_imap.Base.Text.{codes}
use async_imap.Client.Connection.{Connection}
use async_imap.Client.Login
use async_imap.Client.Mailboxes
use async_imap.Client.Messages
use async_imap.Client.Quote.{quote, validate_str}
use async_imap.Client.Session
use async_imap.Client.Session.{Session}
use async_imap.Error.{Outcome, ok}
use async_imap.Proto.{ResponseCode, Response}
use async_imap.Tests.Support.{Queue, queue_channel}
use async_imap.Tests.Repository.{mock_session, tagged, untagged, written_buf}

abbrev logout : Outcome (Unit {0}) × Session Queue
logout =
    Mailboxes.logout queue_channel
      (mock_session (tagged (codes "A0001") none (codes "Logout completed.") ∷ []))

logout_passes : (logout.0 ≡ ok tt) × (written_buf logout ≡ codes "A0001 LOGOUT\r\n")
unfolding Mailboxes.logout Session.run_command_and_check_ok
    async_imap.Client.Connection.run_command_and_check_ok async_imap.Client.Connection.run_command
    Session.new Login.new async_imap.Client.Connection.check_done_ok
    async_imap.Client.Connection.verdict async_imap.Parse.Mailbox.check_status
    async_imap.Base.Text.equal async_imap.Types.IdGenerator.next_id
    async_imap.Types.IdGenerator.tag_of
logout_passes = (refl, refl)

abbrev rename : Outcome (Unit {0}) × Session Queue
rename =
    Mailboxes.rename queue_channel (codes "INBOX") (codes "NEWINBOX")
      (mock_session (tagged (codes "A0001") none (codes "RENAME completed") ∷ []))

rename_passes :
    (rename.0 ≡ ok tt)
    × (written_buf rename
        ≡ codes "A0001 RENAME "
          ++ (quote (codes "INBOX") ++ (codes " " ++ (quote (codes "NEWINBOX") ++ codes "\r\n"))))
unfolding Mailboxes.rename Session.run_command_and_check_ok
    async_imap.Client.Connection.run_command_and_check_ok async_imap.Client.Connection.run_command
    Session.new Login.new async_imap.Client.Connection.check_done_ok
    async_imap.Client.Connection.verdict async_imap.Parse.Mailbox.check_status
    async_imap.Base.Text.equal async_imap.Types.IdGenerator.next_id
    async_imap.Types.IdGenerator.tag_of quote
rename_passes = (refl, refl)

abbrev subscribe : Outcome (Unit {0}) × Session Queue
subscribe =
    Mailboxes.subscribe queue_channel (codes "INBOX")
      (mock_session (tagged (codes "A0001") none (codes "SUBSCRIBE completed") ∷ []))

subscribe_passes :
    (subscribe.0 ≡ ok tt)
    × (written_buf subscribe ≡ codes "A0001 SUBSCRIBE " ++ (quote (codes "INBOX") ++ codes "\r\n"))
unfolding Mailboxes.subscribe Session.run_command_and_check_ok
    async_imap.Client.Connection.run_command_and_check_ok async_imap.Client.Connection.run_command
    Session.new Login.new async_imap.Client.Connection.check_done_ok
    async_imap.Client.Connection.verdict async_imap.Parse.Mailbox.check_status
    async_imap.Base.Text.equal async_imap.Types.IdGenerator.next_id
    async_imap.Types.IdGenerator.tag_of quote
subscribe_passes = (refl, refl)

abbrev unsubscribe : Outcome (Unit {0}) × Session Queue
unsubscribe =
    Mailboxes.unsubscribe queue_channel (codes "INBOX")
      (mock_session (tagged (codes "A0001") none (codes "UNSUBSCRIBE completed") ∷ []))

unsubscribe_passes :
    (unsubscribe.0 ≡ ok tt)
    × (written_buf unsubscribe
        ≡ codes "A0001 UNSUBSCRIBE " ++ (quote (codes "INBOX") ++ codes "\r\n"))
unfolding Mailboxes.unsubscribe Session.run_command_and_check_ok
    async_imap.Client.Connection.run_command_and_check_ok async_imap.Client.Connection.run_command
    Session.new Login.new async_imap.Client.Connection.check_done_ok
    async_imap.Client.Connection.verdict async_imap.Parse.Mailbox.check_status
    async_imap.Base.Text.equal async_imap.Types.IdGenerator.next_id
    async_imap.Types.IdGenerator.tag_of quote
unsubscribe_passes = (refl, refl)

abbrev create : Outcome (Unit {0}) × Session Queue
create =
    Mailboxes.create queue_channel (codes "INBOX")
      (mock_session (tagged (codes "A0001") none (codes "CREATE completed") ∷ []))

create_passes :
    (create.0 ≡ ok tt)
    × (written_buf create ≡ codes "A0001 CREATE " ++ (quote (codes "INBOX") ++ codes "\r\n"))
unfolding Mailboxes.create validate_str async_imap.Base.Text.contains quote
    Session.run_command_and_check_ok async_imap.Client.Connection.run_command_and_check_ok
    async_imap.Client.Connection.run_command Session.new Login.new
    async_imap.Client.Connection.check_done_ok async_imap.Client.Connection.verdict
    async_imap.Parse.Mailbox.check_status async_imap.Base.Text.equal
    async_imap.Types.IdGenerator.next_id async_imap.Types.IdGenerator.tag_of
create_passes = (refl, refl)

abbrev delete : Outcome (Unit {0}) × Session Queue
delete =
    Mailboxes.delete queue_channel (codes "INBOX")
      (mock_session (tagged (codes "A0001") none (codes "DELETE completed") ∷ []))

delete_passes :
    (delete.0 ≡ ok tt)
    × (written_buf delete ≡ codes "A0001 DELETE " ++ (quote (codes "INBOX") ++ codes "\r\n"))
unfolding Mailboxes.delete validate_str async_imap.Base.Text.contains quote
    Session.run_command_and_check_ok async_imap.Client.Connection.run_command_and_check_ok
    async_imap.Client.Connection.run_command Session.new Login.new
    async_imap.Client.Connection.check_done_ok async_imap.Client.Connection.verdict
    async_imap.Parse.Mailbox.check_status async_imap.Base.Text.equal
    async_imap.Types.IdGenerator.next_id async_imap.Types.IdGenerator.tag_of
delete_passes = (refl, refl)

abbrev check : Outcome (Unit {0}) × Session Queue
check =
    Mailboxes.check queue_channel
      (mock_session (tagged (codes "A0001") none (codes "CHECK completed") ∷ []))

check_passes : (check.0 ≡ ok tt) × (written_buf check ≡ codes "A0001 CHECK\r\n")
unfolding Mailboxes.check Session.run_command_and_check_ok
    async_imap.Client.Connection.run_command_and_check_ok async_imap.Client.Connection.run_command
    Session.new Login.new async_imap.Client.Connection.check_done_ok
    async_imap.Client.Connection.verdict async_imap.Parse.Mailbox.check_status
    async_imap.Base.Text.equal async_imap.Types.IdGenerator.next_id
    async_imap.Types.IdGenerator.tag_of
check_passes = (refl, refl)

abbrev close : Outcome (Unit {0}) × Session Queue
close =
    Mailboxes.close queue_channel
      (mock_session (tagged (codes "A0001") none (codes "CLOSE completed") ∷ []))

close_passes : (close.0 ≡ ok tt) × (written_buf close ≡ codes "A0001 CLOSE\r\n")
unfolding Mailboxes.close Session.run_command_and_check_ok
    async_imap.Client.Connection.run_command_and_check_ok async_imap.Client.Connection.run_command
    Session.new Login.new async_imap.Client.Connection.check_done_ok
    async_imap.Client.Connection.verdict async_imap.Parse.Mailbox.check_status
    async_imap.Base.Text.equal async_imap.Types.IdGenerator.next_id
    async_imap.Types.IdGenerator.tag_of
close_passes = (refl, refl)

abbrev noop : Outcome (Unit {0}) × Session Queue
noop =
    Mailboxes.noop queue_channel
      (mock_session (tagged (codes "A0001") none (codes "NOOP completed") ∷ []))

noop_passes : (noop.0 ≡ ok tt) × (written_buf noop ≡ codes "A0001 NOOP\r\n")
unfolding Mailboxes.noop Session.run_command async_imap.Client.Connection.run_command Session.new
    Login.new async_imap.Parse.Readers.parse_noop async_imap.Parse.while_filtered
    async_imap.Parse.filter_sync async_imap.Base.Text.equal async_imap.Types.IdGenerator.next_id
    async_imap.Types.IdGenerator.tag_of
noop_passes = (refl, refl)

abbrev expunge : Outcome (List (Outcome ℕ)) × Session Queue
expunge =
    Messages.expunge queue_channel 10
      (mock_session (tagged (codes "A0001") none (codes "EXPUNGE completed") ∷ []))

expunge_passes : (expunge.0 ≡ ok []) × (written_buf expunge ≡ codes "A0001 EXPUNGE\r\n")
unfolding Messages.expunge Session.run_command async_imap.Client.Connection.run_command Session.new
    Login.new async_imap.Parse.Readers.parse_expunge async_imap.Parse.take_filtered
    async_imap.Parse.filter_sync async_imap.Base.Text.equal async_imap.Types.IdGenerator.next_id
    async_imap.Types.IdGenerator.tag_of
expunge_passes = (refl, refl)

abbrev uid_expunge : Outcome (List (Outcome ℕ)) × Session Queue
uid_expunge = Messages.uid_expunge queue_channel (codes "2:4") 10 (
    mock_session (
      Response.expunge 2
      ∷ Response.expunge 3
      ∷ Response.expunge 4
      ∷ tagged (codes "A0001") none (codes "UID EXPUNGE completed")
      ∷ []))

uid_expunge_passes :
    (uid_expunge.0 ≡ ok (ok 2 ∷ ok 3 ∷ ok 4 ∷ []))
    × (written_buf uid_expunge ≡ codes "A0001 UID EXPUNGE 2:4\r\n")
unfolding Messages.uid_expunge Session.run_command async_imap.Client.Connection.run_command
    Session.new Login.new async_imap.Parse.Readers.parse_expunge async_imap.Parse.take_filtered
    async_imap.Parse.filter_sync async_imap.Base.Text.equal async_imap.Types.IdGenerator.next_id
    async_imap.Types.IdGenerator.tag_of
uid_expunge_passes = (refl, refl)

abbrev mv : Outcome (Unit {0}) × Session Queue
mv = Messages.mv queue_channel (codes "1:2") (codes "MEETING") (
    mock_session (
      untagged (some (ResponseCode.other 1)) (codes "Moved UIDs.")
      ∷ Response.expunge 2
      ∷ Response.expunge 1
      ∷ tagged (codes "A0001") none (codes "Move completed")
      ∷ []))

mv_passes :
    (mv.0 ≡ ok tt)
    × (written_buf mv ≡ codes "A0001 MOVE 1:2 " ++ (quote (codes "MEETING") ++ codes "\r\n"))
unfolding Messages.mv Session.run_command_and_check_ok
    async_imap.Client.Connection.run_command_and_check_ok async_imap.Client.Connection.run_command
    Session.new Login.new async_imap.Client.Connection.check_done_ok
    async_imap.Client.Connection.check_done_ok_from async_imap.Client.Connection.handle_optional
    async_imap.Client.Connection.verdict async_imap.Parse.Mailbox.check_status
    async_imap.Parse.handle_unilateral async_imap.Parse.message_of async_imap.Base.Text.equal
    async_imap.Types.IdGenerator.next_id validate_str async_imap.Base.Text.contains
    async_imap.Types.IdGenerator.tag_of quote
mv_passes = (refl, refl)

abbrev uid_mv : Outcome (Unit {0}) × Session Queue
uid_mv = Messages.uid_mv queue_channel (codes "41:42") (codes "MEETING") (
    mock_session (
      untagged (some (ResponseCode.other 1)) (codes "Moved UIDs.")
      ∷ Response.expunge 2
      ∷ Response.expunge 1
      ∷ tagged (codes "A0001") none (codes "Move completed")
      ∷ []))

uid_mv_passes :
    (uid_mv.0 ≡ ok tt)
    × (written_buf uid_mv
        ≡ codes "A0001 UID MOVE 41:42 " ++ (quote (codes "MEETING") ++ codes "\r\n"))
unfolding Messages.uid_mv Session.run_command_and_check_ok
    async_imap.Client.Connection.run_command_and_check_ok async_imap.Client.Connection.run_command
    Session.new Login.new async_imap.Client.Connection.check_done_ok
    async_imap.Client.Connection.check_done_ok_from async_imap.Client.Connection.handle_optional
    async_imap.Client.Connection.verdict async_imap.Parse.Mailbox.check_status
    async_imap.Parse.handle_unilateral async_imap.Parse.message_of async_imap.Base.Text.equal
    async_imap.Types.IdGenerator.next_id validate_str async_imap.Base.Text.contains
    async_imap.Types.IdGenerator.tag_of quote
uid_mv_passes = (refl, refl)
