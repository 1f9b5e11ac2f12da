-- ===== src/Client/Login/Laws.antt =====
-- What `login` of src/client.rs makes of the server's answer.
use async_imap.Base.{◌≡◌, refl, true, false, ◌||◌, if◌then◌else◌, List, [], ◌++◌, map, arith}
use async_imap.Base.Text.{Bytes, codes}
use async_imap.Channel.{Channel}
use async_imap.Client.Connection.{Connection}
use async_imap.Client.Connection
use async_imap.Client.Connection.Check.{
  AllQuiet, Decision, decision_items, decision_rest, decision_outcome, IsDecision,
  check_done_ok_alone,
}
use async_imap.Client.Connection.Commands.{next_tag, issued, awaiting, run_command_lem}
use async_imap.Client.Session
use async_imap.Client.Login.{finish, Attempt, session, refused, panicked, login, login_steps}
use async_imap.Client.Quote.LineEnds.{has_line_end, line_end_error, validate_str-fine}
use async_imap.Client.Quote.RoundTrip.{validate_str_lem}
use async_imap.Client.Quote.{quote}
use async_imap.Error.{IoResult, Outcome, ok, err}
use async_imap.Types.Wire.{ResponseData}

module _ {C : Type 0} (ch : Channel C) where
  -- A success makes a session with an empty channel; an error gives the client back beside it.
  abbrev pub attempted : Outcome (Unit {0}) → Connection → Attempt C
  attempted (ok _) conn = session (record { conn = conn; unsolicited = ch.bounded 100 })
  attempted (err e) conn = refused e conn
  attempted Outcome.panic conn = panicked

  pub finish-attempted :
      (o : Outcome (Unit {0})) (conn : Connection) → finish ch (o, conn) ≡ attempted o conn
  unfolding Session.new
  finish-attempted (ok _) conn = refl
  finish-attempted (err e) conn = refl
  finish-attempted Outcome.panic conn = refl

  -- Where the writes succeed and neither text has a line end, `login` sends one `LOGIN` line with both
  -- texts quoted and a fresh tag. It gives a session exactly for the tagged `OK`; for a refusal, an I/O
  -- error or the end of the stream it gives back the error and the client, with its tags used up and the
  -- stream read up to that point.
  pub login_lem :
      (username password : Bytes) (conn : Connection) (before : List ResponseData) (d : Decision)
      → has_line_end username ≡ false
      → has_line_end password ≡ false
      → conn.stream.faults ≡ []
      → conn.stream.incoming ≡ map IoResult.ok before ++ decision_items (next_tag conn) d
      → AllQuiet (next_tag conn) before
      → IsDecision d
      → login ch username password conn
        ≡ attempted (decision_outcome d) (
            awaiting
              (decision_rest d)
              (issued (codes "LOGIN " ++ (quote username ++ (codes " " ++ quote password))) conn))
  unfolding login login_steps Connection.run_command_and_check_ok
  login_lem username password conn before d u p f i q w =
      rw
        (
          validate_str-fine username u,
          validate_str-fine password p,
          run_command_lem (codes "LOGIN " ++ (quote username ++ (codes " " ++ quote password))) conn
              f,
          i,
          check_done_ok_alone ch (next_tag conn) before d q w,
        )
        (finish-attempted (decision_outcome d) _)

  -- A user name or a password with a line feed or a carriage return makes `login` fail with the
  -- validation error for the first such text, and the client comes back as it was.
  pub login-line_end :
      (username password : Bytes) (conn : Connection)
      → (has_line_end username || has_line_end password) ≡ true
      → login ch username password conn
        ≡ refused (line_end_error (if has_line_end username then username else password)) conn
  unfolding login login_steps
  login-line_end username password conn h =
      ground (arith, validate_str_lem username, validate_str_lem password)
