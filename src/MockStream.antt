-- ===== src/MockStream.antt =====
-- src/mock_stream.rs: the transport of the tests, in its form for async-std.
pub mod Laws
pub mod Tokio
use async_imap.Base.{
  ℕ, ◌+◌, ◌-◌, Bool, true, false, [], ◌++◌, ltb, leb, length, take, drop, min, if◌then◌else◌,
}
use async_imap.Base.Text.{Bytes, codes}
use async_imap.Error.{IoError, IoKind, IoMessage, IoResult, ok, err}
use async_imap.ImapStream.{ReadPoll, ready, Transport}

pub record MockStream : Type 0 where
  pub read_buf : Bytes
  pub read_pos : ℕ
  pub written_buf : Bytes
  pub err_on_read : Bool
  pub eof_on_read : Bool
  pub read_delay : ℕ

abbrev pub default : MockStream
default = record {
  read_buf = [];
  read_pos = 0;
  written_buf = [];
  err_on_read = false;
  eof_on_read = false;
  read_delay = 0;
}

unfoldable pub with_buf : Bytes → MockStream → MockStream
with_buf read_buf s = record s { read_buf = read_buf }

unfoldable pub new : Bytes → MockStream
unfolding with_buf
new read_buf = with_buf read_buf default

unfoldable pub with_eof : MockStream → MockStream
with_eof s = record s { eof_on_read = true }

unfoldable pub with_err : MockStream → MockStream
with_err s = record s { err_on_read = true }

unfoldable pub with_delay : MockStream → MockStream
with_delay s = record s { read_delay = 1 }

abbrev mock_error : IoError
mock_error = record { kind = IoKind.other; message = IoMessage.text (codes "MockStream Error") }

abbrev eof_error : IoError
eof_error = record { kind = IoKind.unexpected_eof; message = IoMessage.text (codes "EOF") }

-- How many bytes a read into a slice of `n` bytes copies, and the delay that is left.
pub copied : ℕ → MockStream → ℕ
copied n s =
    let write_len = min n (length s.read_buf - s.read_pos) in
    if ltb 0 s.read_delay then min write_len 1 else write_len

unfoldable pub poll_read : ℕ → MockStream → ReadPoll × MockStream
unfolding copied
poll_read n s =
    if s.eof_on_read
    then (ready (ok []), s)
    else if s.err_on_read
    then (ready (err mock_error), s)
    else if leb (length s.read_buf) s.read_pos
    then (ready (err eof_error), s)
    else (
      ready (ok (take (copied n s) (drop s.read_pos s.read_buf))),
      record s { read_pos = s.read_pos + copied n s; read_delay = s.read_delay - 1 },
    )

unfoldable pub poll_write : Bytes → MockStream → IoResult ℕ × MockStream
poll_write buf s = (ok (length buf), record s { written_buf = s.written_buf ++ buf })

unfoldable pub poll_flush : MockStream → IoResult (Unit {0}) × MockStream
poll_flush s = (ok tt, s)

unfoldable pub poll_close : MockStream → IoResult (Unit {0}) × MockStream
poll_close s = (ok tt, s)

-- `write_all` of the runtime writes again until all is taken: here one write takes all.
unfoldable pub write_all : Bytes → MockStream → IoResult (Unit {0}) × MockStream
unfolding poll_write
write_all buf s = (ok tt, (poll_write buf s).1)

abbrev pub mock : Transport MockStream
mock = record {
  poll_read = poll_read;
  write_all = write_all;
  write = poll_write;
  flush = poll_flush;
}
