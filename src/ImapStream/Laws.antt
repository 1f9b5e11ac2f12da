-- ===== src/ImapStream/Laws.antt =====
-- What the stream of src/imap_stream.rs relies on: the parser returns a proper rest of its input, and
-- a read puts no more bytes into the slice than it is long.
use async_imap.Base.{ℕ, ◌<◌, ◌≤◌, ◌≡◌, ◌++◌, []}
use async_imap.Base.{length}
use async_imap.Base.Text.{Bytes}
use async_imap.Error.{ok}
use async_imap.ImapStream.Buffer.Capacity.{data_of}
use async_imap.Proto.{Response}
use async_imap.ImapStream.{Parsed, done, ReadPoll, ready, Transport, ImapStream}

-- The rest is behind a response of one byte at least.
pub record ParserLaws (parse_response : Bytes → Parsed) : Type 0 where
  pub done_lem :
      (buf remaining : Bytes) (response : Response)
      → parse_response buf ≡ done remaining response
      → (consumed : Bytes) × (buf ≡ consumed ++ remaining) × (0 < length consumed)

-- The bytes that a read delivers.
abbrev pub read_bytes : ReadPoll → Bytes
read_bytes (ready (ok bytes)) = bytes
read_bytes _ = []

-- `delivered` is the record of all bytes that a transport has handed out.
pub record TransportLaws {R : Type 0} (io : Transport R) : Type 0 where
  pub delivered : R → Bytes
  pub read_fits : (n : ℕ) (r : R) → length (read_bytes (io.poll_read n r).0) ≤ n
  pub read_delivers :
      (n : ℕ) (r : R)
      → delivered (io.poll_read n r).1 ≡ delivered r ++ read_bytes (io.poll_read n r).0

-- The bytes that are read and not yet parsed.
abbrev pub unparsed : {R : Type 0} → ImapStream R → Bytes
unparsed s = data_of s.buffer
