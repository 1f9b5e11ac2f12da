-- ===== src/Client/Session/Checked.antt =====
-- `Session::run_command_and_check_ok` of src/client.rs as a whole: the line that goes out, the verdict
-- that comes back, and the responses that arrive in between.
use async_imap.Base.{◌≡◌, refl, true, List, [], ◌++◌, map}
use async_imap.Base.Text.{Bytes}
use async_imap.Channel.{Channel, ChannelLaws}
use async_imap.Client.Connection
use async_imap.Client.Connection.Check.{
  AllQuiet, Decision, decision_items, decision_rest, decision_outcome, IsDecision,
  check_done_ok_lem,
}
use async_imap.Client.Connection.Commands.{next_tag, issued, awaiting, run_command_lem}
use async_imap.Client.Session.{Session, run_command_and_check_ok}
use async_imap.Error.{IoResult}
use async_imap.Parse.Received.{message, Received}
use async_imap.Types.Wire.{ResponseData}

module _ {C : Type 0} {ch : Channel C} (laws : ChannelLaws ch) where
  -- On a session whose writes succeed and whose channel is open, a checked command writes one line
  -- with a fresh tag and flushes it, then reads up to the item that decides: its outcome is `Ok`
  -- for the tagged `OK`, the error of the status for the first tagged response that is not `OK`, of
  -- whichever command, `ConnectionLost` for the end of the stream, or the I/O error. What follows
  -- stays in the stream, and all responses before are offered to the channel, in order.
  pub run_command_and_check_ok_lem :
      (command : Bytes) (s : Session C) (before : List ResponseData) (d : Decision)
      → s.conn.stream.faults ≡ []
      → s.conn.stream.incoming ≡ map IoResult.ok before ++ decision_items (next_tag s.conn) d
      → AllQuiet (next_tag s.conn) before
      → IsDecision d
      → laws.is_open s.unsolicited ≡ true
      → (c' : C) × (run_command_and_check_ok ch command s ≡ (
        decision_outcome d,
        record { conn = awaiting (decision_rest d) (issued command s.conn); unsolicited = c' },
      ))
        × Received laws s.unsolicited (map message before) c'
  unfolding run_command_and_check_ok Connection.run_command_and_check_ok
  run_command_and_check_ok_lem command s before d f i q w o =
      let (c', e, got) = check_done_ok_lem laws (next_tag s.conn) before d s.unsolicited q w o in
      (c', rw (run_command_lem command s.conn f, i, e) refl, got)
