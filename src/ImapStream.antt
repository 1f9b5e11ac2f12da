-- ===== src/ImapStream.antt =====
-- src/imap_stream.rs: the stream that parses what comes in and writes what goes out. The parser of
-- imap-proto and the transport below are parameters.
pub mod Buffer
pub mod Laws
pub mod Decode
pub mod Framing
pub mod Fuel
pub mod Exact
pub mod Reading
pub mod Writing
use async_imap.Base.{
  ℕ, zero, suc, ◌+◌, Option, none, some, [], ◌∷◌, ltb, length, take, if◌then◌else◌,
}
use async_imap.Base.Text.{Bytes, codes}
use async_imap.Error.{IoError, IoKind, IoMessage, IoResult, ok, err}
use async_imap.Proto.{RequestId, Response}
use async_imap.Types.Wire.{ResponseData, Request}

-- What `imap_proto::parser::parse_response` returns: what is left and the response, or how many more
-- bytes it wants, or a number for any other error.
pub data Parsed : Type 0 where
  done : Bytes → Response → Parsed
  incomplete_size : ℕ → Parsed
  incomplete_unknown : Parsed
  failed : ℕ → Parsed

-- `Poll<io::Result<n>>` of one `poll_read`, with the bytes that were put into the slice.
pub data ReadPoll : Type 0 where
  pending : ReadPoll
  ready : IoResult Bytes → ReadPoll

-- The transport, the type argument of the source: `poll_read` gets the length of the slice.
pub record Transport (R : Type 0) : Type 0 where
  pub poll_read : ℕ → R → ReadPoll × R
  pub write_all : Bytes → R → IoResult (Unit {0}) × R
  -- how many bytes were taken
  pub write : Bytes → R → IoResult ℕ × R
  pub flush : R → IoResult (Unit {0}) × R

pub record ImapStream (R : Type 0) : Type 0 where
  pub inner : R
  pub decode_needs : ℕ
  pub buffer : Buffer.Buffer

pub data Poll {ℓ} (A : Type ℓ) : Type ℓ where
  pending : Poll A
  ready : A → Poll A

abbrev pub during_parsing : ℕ → Bytes → IoError
during_parsing other buf = record {
  kind = IoKind.other;
  message = IoMessage.during_parsing other buf;
}

abbrev pub bytes_remaining : IoError
bytes_remaining = record {
  kind = IoKind.unexpected_eof;
  message = IoMessage.text (codes "bytes remaining in stream");
}

module _ {R : Type 0} where
  unfoldable pub new : R → ImapStream R
  new inner = record { inner = inner; decode_needs = 0; buffer = Buffer.new }

  unfoldable pub into_inner : ImapStream R → R
  into_inner s = s.inner

  unfoldable pub as_mut : ImapStream R → R
  as_mut s = s.inner

module _ {R : Type 0} (parse_response : Bytes → Parsed) where
  -- What `decode` does with the answer of the parser, on the block that it took.
  decode_answer :
      ImapStream R → Bytes → Bytes → Parsed → IoResult (Option ResponseData) × ImapStream R
  decode_answer s block buf (done remaining response) = (
    ok (some (record { owner = block; parsed = response })),
    record s { decode_needs = 0; buffer = Buffer.reset_with_data remaining s.buffer },
  )
  decode_answer s block buf (incomplete_size min) = (
    ok none,
    record s {
      decode_needs = Buffer.used s.buffer + min;
      buffer = Buffer.return_block block s.buffer;
    },
  )
  decode_answer s block buf incomplete_unknown =
      (ok none, record s { decode_needs = 0; buffer = Buffer.return_block block s.buffer })
  decode_answer s block buf (failed other) = (
    err (during_parsing other buf),
    record s { decode_needs = 0; buffer = Buffer.return_block block s.buffer },
  )

  unfoldable pub decode : ImapStream R → IoResult (Option ResponseData) × ImapStream R
  unfolding decode_answer
  decode s =
      if ltb (Buffer.used s.buffer) s.decode_needs
      then (ok none, s)
      else (let (block, buffer) = Buffer.take_block s.buffer in
          let buf = take (Buffer.used buffer) block in
          decode_answer (record s { buffer = buffer }) block buf (parse_response buf))

module _ {R : Type 0} (io : Transport R) where
  -- `?` on a write.
  and_then : IoResult (Unit {0}) × R → (R → IoResult (Unit {0}) × R) → IoResult (Unit {0}) × R
  and_then (ok _, r) next = next r
  and_then (err e, r) next = (err e, r)

  -- The count that `write` returns is not looked at.
  ignore_count : IoResult ℕ × R → IoResult (Unit {0}) × R
  ignore_count (ok n, r) = (ok tt, r)
  ignore_count (err e, r) = (err e, r)

  write_tag : Option RequestId → R → IoResult (Unit {0}) × R
  unfolding and_then ignore_count
  write_tag none r = (ok tt, r)
  write_tag (some tag) r =
      and_then (io.write_all tag r) (λ r'. ignore_count (io.write (codes " ") r'))

  unfoldable pub encode_inner : Request → R → IoResult (Unit {0}) × R
  unfolding write_tag and_then
  encode_inner msg r =
      and_then (write_tag msg.tag r)
        (λ r'. and_then (io.write_all msg.body r') (io.write_all (codes "\r\n")))

  unfoldable pub encode : Request → ImapStream R → IoResult (Unit {0}) × ImapStream R
  unfolding encode_inner
  encode msg s =
      let (result, inner) = encode_inner msg s.inner in (result, record s { inner = inner })

  unfoldable pub flush : ImapStream R → IoResult (Unit {0}) × ImapStream R
  flush s = let (result, inner) = io.flush s.inner in (result, record s { inner = inner })

module _ {R : Type 0} (parse_response : Bytes → Parsed) (io : Transport R) where
  -- `Poll<Option<io::Result<ResponseData>>>`, or `none` where the fuel ran out.
  abbrev pub Answer : Type 0
  Answer = Option (Poll (Option (IoResult ResponseData)))

  abbrev item : IoResult ResponseData → Answer
  item r = some (ready (some r))

  -- The end of a round that read some bytes: `extend_used`, `decode`, and the next round.
  unfoldable pub after_decode :
      (ImapStream R → Answer × ImapStream R)
      → IoResult (Option ResponseData) × ImapStream R
      → Answer × ImapStream R
  after_decode next_round (ok (some response), s) = (item (ok response), s)
  after_decode next_round (ok none, s) = next_round s
  after_decode next_round (err e, s) = (item (err e), s)

  at_eof : ImapStream R → Answer × ImapStream R
  at_eof s =
      if ltb 0 (Buffer.used s.buffer)
      then (item (err bytes_remaining), s)
      else (some (ready none), s)

  after_read :
      (ImapStream R → Answer × ImapStream R) → ImapStream R → ReadPoll → Answer × ImapStream R
  unfolding after_decode at_eof
  after_read next_round s pending = (some pending, s)
  after_read next_round s (ready (err e)) = (item (err e), s)
  after_read next_round s (ready (ok [])) = at_eof s
  after_read next_round s (ready (ok (b ∷ bs))) = after_decode next_round (
      decode parse_response (record s {
        buffer = Buffer.extend_used (length (b ∷ bs)) (Buffer.fill (b ∷ bs) s.buffer);
      }))

  after_capacity :
      (ImapStream R → Answer × ImapStream R)
      → ImapStream R
      → IoResult (Unit {0}) × Buffer.Buffer
      → Answer × ImapStream R
  unfolding after_read
  after_capacity next_round s (err e, buffer) = (item (err e), record s { buffer = buffer })
  after_capacity next_round s (ok _, buffer) =
      let (read, inner) = io.poll_read (length (Buffer.free_as_mut_slice buffer)) s.inner in
      after_read next_round (record s { inner = inner; buffer = buffer }) read

  -- The `loop` of `poll_next`.
  unfoldable pub read_loop : ℕ → ImapStream R → Answer × ImapStream R
  unfolding after_capacity
  read_loop zero s = (none, s)
  read_loop (suc fuel) s =
      after_capacity (read_loop fuel) s (Buffer.ensure_capacity s.decode_needs s.buffer)

  -- A round reads at least one byte, and the buffer holds `max_capacity` bytes at most.
  unfoldable pub poll_next : ImapStream R → Answer × ImapStream R
  unfolding after_decode
  poll_next s = after_decode (read_loop (Buffer.max_capacity + 2)) (decode parse_response s)
