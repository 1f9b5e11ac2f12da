-- ===== src/Tests/Framing.antt =====
-- The theorems on the framing of src/imap_stream.rs and on the two forms of src/mock_stream.rs at
-- concrete streams.
use async_imap.Base.{
  ℕ, ◌+◌, ◌-◌, ◌<◌, ◌≤◌, ◌≡◌, refl, ap, some, none, List, [], ◌∷◌, ◌++◌, leb, length, length-append,
  filter_map, arith, if◌then◌else◌,
}
use async_imap.Base.Text.{Bytes, codes}
use async_imap.ImapStream.{ImapStream, new, done, decode, after_decode, read_loop, poll_next}
use async_imap.ImapStream.Buffer
use async_imap.ImapStream.Buffer.Capacity.{IsValid, new-IsValid}
use async_imap.ImapStream.Exact.{Frame, IsFrame, bytes_of, Served, polls-Served}
use async_imap.ImapStream.Framing.{polls, polled}
use async_imap.ImapStream.Fuel.{Reply, poll_next-ends}
use async_imap.ImapStream.Laws.{unparsed}
use async_imap.MockStream
use async_imap.MockStream.{MockStream, mock}
use async_imap.MockStream.Laws.{mock_transport}
use async_imap.MockStream.Tokio
use async_imap.MockStream.Tokio.{ReadBuf, ReadBufLaws, SameRead, poll_read-same}
use async_imap.Proto.{Response}
use async_imap.Tests.Support.{parse_byte, parse_byte_laws}

-- A new stream on a mock with two bytes to read.
abbrev stream : ImapStream MockStream
stream = new (MockStream.new (codes "OK"))

-- Every byte is a response to this parser.
abbrev one_byte : ℕ → Frame
one_byte b = record { bytes = b ∷ []; response = Response.other b }

one_byte-IsFrame : (b : ℕ) → IsFrame parse_byte (one_byte b)
one_byte-IsFrame b = record { whole = λ rest. refl; partial = cut }
  where
    cut :
        (start missing rest : Bytes) (r : Response)
        → b ∷ [] ≡ start ++ missing
        → 0 < length missing
        → ¬ (parse_byte start ≡ done rest r)
    cut [] missing rest r e h p = absurd (ground arith)
    cut (x ∷ start) missing rest r e h p =
        omega (arith, ap length e, length-append (x ∷ start) missing)

abbrev frames : List Frame
frames = one_byte b'O' ∷ one_byte b'K' ∷ []

nothing_yet : mock_transport.delivered (MockStream.new (codes "OK")) ≡ []
unfolding MockStream.new
nothing_yet = refl

-- One poll has read both bytes.
both_read :
    mock_transport.delivered (polls parse_byte mock 1 stream).1.inner ++ [] ≡ bytes_of frames
unfolding polls new MockStream.new poll_next decode Buffer.used Buffer.new Buffer.take_block
    read_loop Buffer.ensure_capacity Buffer.return_block Buffer.zeroed MockStream.poll_read
    Buffer.free_as_mut_slice Buffer.extend_used Buffer.fill
both_read = refl

polls-Served_example :
    Served frames
      (filter_map (polled parse_byte mock) (polls parse_byte mock 1 stream).0)
      (unparsed (polls parse_byte mock 1 stream).1 ++ [])
polls-Served_example =
    polls-Served parse_byte_laws mock_transport 1 (MockStream.new (codes "OK")) frames []
      nothing_yet (one_byte-IsFrame b'O', (one_byte-IsFrame b'K', tt)) both_read

stream-IsValid : IsValid stream.buffer
unfolding new
stream-IsValid = new-IsValid

poll_next-ends_example :
    (x : Reply parse_byte mock) × (t : ImapStream MockStream) × (poll_next parse_byte mock stream
      ≡ (some x, t))
    × ((fuel : ℕ)
        → Buffer.max_capacity + 2 ≤ fuel
        → after_decode parse_byte mock (read_loop parse_byte mock fuel) (decode parse_byte stream)
          ≡ (some x, t))
poll_next-ends_example = poll_next-ends parse_byte_laws mock_transport stream stream-IsValid

-- A buffer with room for as many bytes as the number says.
abbrev room_buf : ReadBuf (ℕ × Bytes)
room_buf = record {
  remaining = λ b. b.0;
  put_slice =
      λ bytes b. if leb (length bytes) b.0 then some (b.0 - length bytes, b.1 ++ bytes) else none;
}

room_laws : ReadBufLaws room_buf
room_laws = record {
  filled = λ b. b.1;
  put_slice_lem = λ bytes b h. ((b.0 - length bytes, b.1 ++ bytes), ground arith, refl, refl);
}

abbrev two_left : ℕ × Bytes
two_left = (2, codes "* ")

abbrev delayed : MockStream
delayed = MockStream.with_delay (MockStream.new (codes "OK"))

poll_read-same_example :
    SameRead room_laws two_left
      (MockStream.poll_read 2 delayed).0
      (Tokio.poll_read room_buf two_left delayed).0
      (Tokio.poll_read room_buf two_left delayed).1
    × ((Tokio.poll_read room_buf two_left delayed).2 ≡ (MockStream.poll_read 2 delayed).1)
    × (Tokio.poll_write (codes "A") delayed ≡ MockStream.poll_write (codes "A") delayed)
    × (Tokio.poll_flush delayed ≡ MockStream.poll_flush delayed)
    × (Tokio.poll_shutdown delayed ≡ MockStream.poll_close delayed)
poll_read-same_example = poll_read-same room_laws two_left (codes "A") delayed
