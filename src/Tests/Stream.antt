-- ===== src/Tests/Stream.antt =====
-- The theorems on src/imap_stream.rs at concrete streams.
use async_imap.Base.{ℕ, take, ◌≡◌, refl, some, [], ◌++◌}
use async_imap.Base.Text.{Bytes, codes}
use async_imap.Error.{ok}
use async_imap.ImapStream.{ImapStream, Transport, pending, new, encode, poll_next}
use async_imap.ImapStream.Buffer
use async_imap.ImapStream.Buffer.Capacity.{new-IsValid, Ensured, ensure_capacity-Ensured}
use async_imap.ImapStream.Framing.{polls, Polled, polls-Polled}
use async_imap.ImapStream.Reading.{Answered, poll_next-Answered}
use async_imap.ImapStream.Writing.{Counted, line, encode_lem}
use async_imap.MockStream
use async_imap.MockStream.{MockStream, mock}
use async_imap.MockStream.Laws.{mock_transport, mock-WriterLaws}
use async_imap.Tests.Support.{parse_byte, parse_byte_laws}
use async_imap.Types.Wire.{Request}

-- A stream on a mock with two bytes to read.
abbrev stream : ImapStream MockStream
stream = record { inner = MockStream.new (codes "OK"); decode_needs = 0; buffer = Buffer.new }

poll_next-Answered_example :
    Answered parse_byte_laws mock_transport stream (poll_next parse_byte mock stream)
poll_next-Answered_example = poll_next-Answered parse_byte_laws mock_transport stream new-IsValid

ensure_capacity-Ensured_example : Ensured 5000 Buffer.new (Buffer.ensure_capacity 5000 Buffer.new)
ensure_capacity-Ensured_example = ensure_capacity-Ensured Buffer.new 5000 new-IsValid

abbrev noop_request : Request
noop_request = record { tag = some (codes "A0001"); body = codes "NOOP" }

abbrev behind_noop : ImapStream MockStream
behind_noop = record stream { inner = record stream.inner { written_buf = codes "A0001 NOOP\r\n" } }

encodes : encode mock noop_request stream ≡ (ok tt, behind_noop)
unfolding encode MockStream.write_all MockStream.poll_write MockStream.new
encodes = refl

encode_lem_example :
    (n : ℕ) × Counted mock noop_request.tag stream.inner n
    × (mock-WriterLaws.written behind_noop.inner
        ≡ mock-WriterLaws.written stream.inner ++ line (take n (codes " ")) noop_request)
encode_lem_example = encode_lem mock-WriterLaws noop_request stream behind_noop encodes

-- A transport that takes nothing of a `write`, which it may; its state is what was written.
abbrev reluctant : Transport Bytes
reluctant = record {
  poll_read = λ n r. (pending, r);
  write = λ bytes r. (ok 0, r);
  write_all = λ bytes r. (ok tt, r ++ bytes);
  flush = λ r. (ok tt, r);
}

-- `encode` succeeds there, and the space behind the tag is lost.
space_lost :
    encode reluctant noop_request (new [])
    ≡ (ok tt, record (new []) { inner = codes "A0001NOOP\r\n" })
unfolding encode new
space_lost = refl

polls-Polled_example :
    Polled parse_byte_laws mock_transport stream
      (polls parse_byte mock 3 stream).0
      (polls parse_byte mock 3 stream).1
polls-Polled_example = polls-Polled parse_byte_laws mock_transport 3 stream new-IsValid
