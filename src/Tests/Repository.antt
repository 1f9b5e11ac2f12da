-- ===== src/Tests/Repository.antt =====
-- The tests of the repository, run on the model: the calls that each test makes on a session, over the
-- responses that its server sends, which stand here as the parser of imap-proto returns them.
pub mod Commands
pub mod Replies
pub mod StatusReplies
pub mod Generic
pub mod Readers
pub mod Unilateral
pub mod Buffers
pub mod Greeting
pub mod LoggingIn
pub mod MetadataReplies
use async_imap.Base.{Option, some, List, [], ◌∷◌, ◌++◌, map}
use async_imap.Base.Text.{Bytes, codes}
use async_imap.Client.Connection.{Connection}
use async_imap.Client.Connection.Wire.{on_wire}
use async_imap.Client.Login
use async_imap.Client.Mailboxes
use async_imap.Client.Messages
use async_imap.Client.Session
use async_imap.Client.Session.{Session}
use async_imap.Error.{IoError, IoKind, IoMessage, IoResult, Outcome, ok, err}
use async_imap.Parse.{Item}
use async_imap.Proto.{Status, ResponseCode, Response, RequestId}
use async_imap.Tests.Support.{Queue, queue_channel, response}
use async_imap.Types.Capabilities
use async_imap.Types.Capabilities.{Capabilities}
use async_imap.Types.Flag

-- The error of a mock stream that is read past its end.
abbrev pub eof : IoError
eof = record { kind = IoKind.unexpected_eof; message = IoMessage.text (codes "EOF") }

-- What the stream of responses gives, over the responses that the mock stream holds.
abbrev pub mock_items : List Response → List Item
mock_items responses = map (λ r. IoResult.ok (response r)) responses ++ IoResult.err eof ∷ []

-- `mock_client!` and `mock_session!`
abbrev pub mock_client : List Response → Connection
mock_client responses =
    Login.new (record { incoming = mock_items responses; sent = []; faults = [] })

abbrev pub mock_session : List Response → Session Queue
mock_session responses = Session.new queue_channel (mock_client responses)

abbrev pub tagged : RequestId → Option ResponseCode → Bytes → Response
tagged tag code text = Response.done tag Status.ok code (some text)

abbrev pub untagged : Option ResponseCode → Bytes → Response
untagged code text = Response.status_data Status.ok code (some text)

abbrev pub written_buf : {A : Type 0} → Outcome A × Session Queue → Bytes
written_buf r = on_wire r.1.conn.stream.sent

-- The set that holds the four capabilities of the tests.
abbrev pub four_capabilities : Capabilities
four_capabilities = record {
  set =
      Capabilities.atom (codes "LOGINDISABLED")
      ∷ Capabilities.auth (codes "GSSAPI")
      ∷ Capabilities.atom (codes "STARTTLS")
      ∷ Capabilities.imap4rev1
      ∷ [];
}

-- `input_stream`
abbrev pub input_stream : List Response → List Item
input_stream responses = map (λ r. IoResult.ok (response r)) responses
