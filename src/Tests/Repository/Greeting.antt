-- ===== src/Tests/Repository/Greeting.antt =====
-- The tests of src/client.rs that read one response over the mock stream, run on the stream of
-- src/imap_stream.rs, with a parser for the text that the server sends.
use async_imap.Base.{◌≡◌, refl, none, some, [], if◌then◌else◌}
use async_imap.Base.Text.{Bytes, codes, equal}
use async_imap.Error.{IoError, ok, err}
use async_imap.ImapStream.{
  ImapStream, Parsed, done, incomplete_unknown, Answer, Poll, new, poll_next,
}
use async_imap.ImapStream.{decode, read_loop}
use async_imap.ImapStream.Buffer
use async_imap.MockStream
use async_imap.MockStream.{MockStream, mock}
use async_imap.Proto.{Status, Response}
use async_imap.Types.Wire.{ResponseData}

abbrev greeting : Bytes
greeting = codes "* OK Dovecot ready.\r\n"

abbrev greeted : Response
greeted = Response.status_data Status.ok none (some (codes "Dovecot ready."))

abbrev parse_greeting : Bytes → Parsed
parse_greeting bytes = if equal bytes greeting then done [] greeted else incomplete_unknown

-- `mock_client!(stream).read_response()`
abbrev read_from : MockStream → Answer parse_greeting mock × ImapStream MockStream
read_from stream = poll_next parse_greeting mock (new stream)

abbrev readline_delay_read : Answer parse_greeting mock × ImapStream MockStream
readline_delay_read =
    read_from (MockStream.with_delay (MockStream.with_buf greeting MockStream.default))

readline_delay_read_passes :
    (actual_response : ResponseData) × (readline_delay_read.0
      ≡ some (Poll.ready (some (ok actual_response))))
    × (actual_response.parsed ≡ greeted)
unfolding new poll_next decode Buffer.used Buffer.new Buffer.take_block read_loop
    Buffer.ensure_capacity Buffer.return_block Buffer.reset_with_data Buffer.zeroed
    MockStream.poll_read Buffer.free_as_mut_slice Buffer.extend_used Buffer.fill
    MockStream.with_delay MockStream.with_buf equal
readline_delay_read_passes = (_, refl, refl)

abbrev readline_eof : Answer parse_greeting mock × ImapStream MockStream
readline_eof = read_from (MockStream.with_eof MockStream.default)

readline_eof_passes : readline_eof.0 ≡ some (Poll.ready none)
unfolding poll_next async_imap.ImapStream.decode async_imap.ImapStream.Buffer.used new
    async_imap.ImapStream.Buffer.new equal async_imap.ImapStream.Buffer.take_block
    async_imap.ImapStream.read_loop async_imap.ImapStream.Buffer.ensure_capacity
    async_imap.ImapStream.Buffer.return_block async_imap.ImapStream.Buffer.zeroed
    MockStream.poll_read MockStream.with_eof
readline_eof_passes = refl

-- The test panics at the `unwrap` of this error.
abbrev readline_err : Answer parse_greeting mock × ImapStream MockStream
readline_err = read_from (MockStream.with_err MockStream.default)

readline_err_passes : (e : IoError) × (readline_err.0 ≡ some (Poll.ready (some (err e))))
unfolding poll_next async_imap.ImapStream.decode async_imap.ImapStream.Buffer.used new
    async_imap.ImapStream.Buffer.new equal async_imap.ImapStream.Buffer.take_block
    async_imap.ImapStream.read_loop async_imap.ImapStream.Buffer.ensure_capacity
    async_imap.ImapStream.Buffer.return_block async_imap.ImapStream.Buffer.zeroed
    MockStream.poll_read MockStream.with_err
readline_err_passes = (_, refl)
