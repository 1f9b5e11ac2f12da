-- ===== src/Tests/Repository/LoggingIn.antt =====
-- The tests of src/client.rs on login, on quoting and on its checks, and the test of
-- src/extensions/id.rs.
use async_imap.Base.{
  ◌≡◌, refl, Bool, true, ◌&&◌, Option, none, some, List, [], ◌∷◌, ◌++◌, if◌then◌else◌,
}
use async_imap.Base.Text.{Bytes, codes, equal}
use async_imap.Client.Connection.{Connection}
use async_imap.Client.Connection.Wire.{on_wire}
use async_imap.Client.Login
use async_imap.Client.Login.{Base64, Authenticator, Attempt, plain, malformed}
use async_imap.Client.Quote.{quote, validate_str, format_identification}
use async_imap.Client.Session
use async_imap.Error.{Error, Outcome, ok, err}
use async_imap.Proto.{Response}
use async_imap.Tests.Repository.{mock_client, tagged}
use async_imap.Tests.Support.{Queue, queue_channel}

-- The attempt gave a session, on whose connection these bytes were written.
abbrev HasWritten : Attempt Queue → Bytes → Type 0
HasWritten (Attempt.session s) bytes = on_wire s.conn.stream.sent ≡ bytes
HasWritten (Attempt.refused e conn) bytes = ⊥
HasWritten Attempt.panicked bytes = ⊥

abbrev logged_in : Response
logged_in = tagged (codes "A0001") none (codes "Logged in")

abbrev login : Attempt Queue
login =
    Login.login queue_channel (codes "username") (codes "password") (mock_client (logged_in ∷ []))

login_passes : HasWritten login (
    codes "A0001 LOGIN "
    ++ (quote (codes "username") ++ (codes " " ++ (quote (codes "password") ++ codes "\r\n"))))
unfolding Login.login validate_str async_imap.Base.Text.contains quote
    async_imap.Client.Connection.run_command_and_check_ok async_imap.Client.Connection.run_command
    Session.new Login.new async_imap.Client.Connection.check_done_ok
    async_imap.Client.Connection.verdict async_imap.Parse.Mailbox.check_status equal
    async_imap.Types.IdGenerator.next_id async_imap.Types.IdGenerator.tag_of
login_passes = refl

-- What base64 makes of the two texts of the test.
abbrev base64 : Base64
base64 = record {
  encode = λ bytes. if equal bytes (codes "foo") then codes "Zm9v" else [];
  decode = λ text. if equal text (codes "YmFy") then plain (codes "bar") else malformed 0;
}

-- Its state is whether it has been asked for the expected challenge only.
abbrev process : Authenticator Bool
process challenge fine = (codes "foo", fine && equal challenge (codes "bar"))

abbrev authenticate : Attempt Queue
authenticate =
    Login.authenticate queue_channel base64 process (codes "PLAIN") true
      (mock_client (Response.continue none (some (codes "YmFy")) ∷ logged_in ∷ []))

authenticate_passes : HasWritten authenticate (codes "A0001 AUTHENTICATE PLAIN\r\nZm9v\r\n")
unfolding Login.authenticate Login.do_auth_handshake async_imap.Client.Connection.check_done_ok_from
    async_imap.Client.Connection.run_command_untagged async_imap.Client.Connection.run_command
    Session.new Login.new async_imap.Client.Connection.verdict async_imap.Parse.Mailbox.check_status
    equal async_imap.Types.IdGenerator.next_id async_imap.Types.IdGenerator.tag_of
authenticate_passes = refl

abbrev quote_backslash : Bytes
quote_backslash = quote (codes "test\\text")

quote_backslash_passes : quote_backslash ≡ codes "\"test\\\\text\""
unfolding quote
quote_backslash_passes = refl

abbrev quote_dquote : Bytes
quote_dquote = quote (codes "test\"text")

quote_dquote_passes : quote_dquote ≡ codes "\"test\\\"text\""
unfolding quote
quote_dquote_passes = refl

abbrev validate_random : Outcome Bytes
validate_random = validate_str (codes "~iCQ_k;>[&\"sVCvUW`e<<P!wJ")

validate_random_passes : validate_random ≡ ok (codes "\"~iCQ_k;>[&\\\"sVCvUW`e<<P!wJ\"")
unfolding validate_str async_imap.Base.Text.contains quote
validate_random_passes = refl

abbrev validate_newline : Outcome Bytes
validate_newline = validate_str (codes "test\nstring")

validate_newline_passes : validate_newline ≡ err (Error.validate b'\n')
unfolding validate_str async_imap.Base.Text.contains quote
validate_newline_passes = refl

abbrev validate_carriage_return : Outcome Bytes
validate_carriage_return = validate_str (codes "test\rstring")

validate_carriage_return_passes : validate_carriage_return ≡ err (Error.validate b'\r')
unfolding validate_str async_imap.Base.Text.contains quote
validate_carriage_return_passes = refl

-- The four texts of the test.
abbrev test_format_identification : List Bytes
test_format_identification =
    format_identification ((codes "name", some (codes "MyClient")) ∷ [])
    ∷ format_identification ((codes "name", some (codes "\"MyClient\"\\")) ∷ [])
    ∷ format_identification
        ((codes "name", some (codes "MyClient")) ∷ (codes "version", some (codes "2.0")) ∷ [])
    ∷ format_identification ((codes "name", none) ∷ (codes "version", some (codes "2.0")) ∷ [])
    ∷ []

test_format_identification_passes :
    test_format_identification
    ≡ codes "\"name\" \"MyClient\""
      ∷ codes "\"name\" \"\\\"MyClient\\\"\\\\\""
      ∷ codes "\"name\" \"MyClient\" \"version\" \"2.0\""
      ∷ codes "\"name\" NIL \"version\" \"2.0\""
      ∷ []
unfolding format_identification async_imap.Client.Quote.escape
test_format_identification_passes = refl
