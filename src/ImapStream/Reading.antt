-- ===== src/ImapStream/Reading.antt =====
-- `poll_next` of src/imap_stream.rs always returns, and neither loses nor makes up a byte.
use async_imap.Base.{
  ℕ, zero, suc, ◌+◌, ◌<◌, ◌≤◌, ◌≡◌, refl, sym, ap, ◌∙◌, Bool-cases, inl, inr, [], ◌∷◌, ◌++◌,
  append_assoc, append-nil, Option, none, some, length, ltb, arith,
}
use async_imap.Base.Text.{Bytes}
use async_imap.Error.{IoResult, ok, err}
use async_imap.Types.Wire.{ResponseData}
use async_imap.ImapStream.Buffer
use async_imap.ImapStream.Buffer.Capacity.{
  IsValid, data_of, ensure_capacity-Ensured, Ensured, extend_used-fill,
}
use async_imap.ImapStream.Decode.{Decoded, decode-Decoded}
use async_imap.ImapStream.Laws.{ParserLaws, TransportLaws, read_bytes, unparsed}
use async_imap.ImapStream.{
  Parsed, done, ReadPoll, Transport, ImapStream, Poll, Answer, decode, after_decode, at_eof,
  after_read, after_capacity, read_loop, poll_next,
}

module _ {R : Type 0} {parse_response : Bytes → Parsed} {io : Transport R}
    (parser : ParserLaws parse_response) (transport : TransportLaws io) where
  open transport use {delivered, read_fits, read_delivers}

  -- From `s` to `s'` the transport delivered `w`, which is now behind the unparsed bytes.
  pub record Took (s : ImapStream R) (w : Bytes) (s' : ImapStream R) : Type 0 where
    pub valid : IsValid s'.buffer
    pub delivered_is : delivered s'.inner ≡ delivered s.inner ++ w
    pub unparsed_is : unparsed s' ≡ unparsed s ++ w

  -- What a poll from `s` may return: a response, which the parser finds at the head of the bytes that
  -- were unparsed or delivered meanwhile, its rest being what is unparsed now; an error or `Pending`,
  -- with all these bytes still unparsed; or the end, with none left.
  abbrev pub Answered : ImapStream R → Answer parse_response io × ImapStream R → Type 0
  Answered s (some (Poll.ready (some (ok res))), s') =
      (w : Bytes) × (delivered s'.inner ≡ delivered s.inner ++ w)
      × (parse_response (unparsed s ++ w) ≡ done (unparsed s') res.parsed)
      × IsValid s'.buffer
  Answered s (some (Poll.ready (some (err e))), s') = (w : Bytes) × Took s w s'
  Answered s (some (Poll.ready none), s') = (w : Bytes) × Took s w s' × (unparsed s' ≡ [])
  Answered s (some Poll.pending, s') = (w : Bytes) × Took s w s'
  Answered s (none, s') = ⊥

  Took-trans : {s t u : ImapStream R} {v w : Bytes} → Took s v t → Took t w u → Took s (v ++ w) u
  Took-trans {s} {t} {u} {v} {w} p q = record {
    valid = q.valid;
    delivered_is = q.delivered_is ∙ rw p.delivered_is (append_assoc (delivered s.inner) v w);
    unparsed_is = q.unparsed_is ∙ rw p.unparsed_is (append_assoc (unparsed s) v w);
  }

  Took-refl :
      (s t : ImapStream R)
      → IsValid s.buffer
      → t.buffer ≡ s.buffer
      → t.inner ≡ s.inner
      → Took s [] t
  Took-refl s t v b i = record {
    valid = rw b v;
    delivered_is = ap delivered i ∙ sym (append-nil _);
    unparsed_is = ap data_of b ∙ sym (append-nil _);
  }

  -- What holds of the rest of a poll holds of the whole of it.
  Answered-Took :
      {s t : ImapStream R} {v : Bytes} (a : Answer parse_response io) (u : ImapStream R)
      → Took s v t
      → Answered t (a, u)
      → Answered s (a, u)
  Answered-Took {s} {t} {v} (some (Poll.ready (some (ok res)))) u p (w, d, e, valid) = (
    v ++ w,
    d ∙ rw p.delivered_is (append_assoc (delivered s.inner) v w),
    rw (← append_assoc (unparsed s) v w, ← p.unparsed_is) e,
    valid,
  )
  Answered-Took (some (Poll.ready (some (err e)))) u p (w, q) = (_, Took-trans p q)
  Answered-Took (some (Poll.ready none)) u p (w, q, e) = (_, Took-trans p q, e)
  Answered-Took (some Poll.pending) u p (w, q) = (_, Took-trans p q)
  Answered-Took none u p a = a

  -- The end of a round: `decode`, and the next round where there is no response.
  after_decode-Answered :
      (next_round : ImapStream R → Answer parse_response io × ImapStream R) (s : ImapStream R)
      (r : IoResult (Option ResponseData)) (t : ImapStream R)
      → IsValid s.buffer
      → Decoded parse_response s (r, t)
      → (IsValid t.buffer → t.buffer ≡ s.buffer → Answered t (next_round t))
      → Answered s (after_decode parse_response io next_round (r, t))
  unfolding after_decode
  after_decode-Answered next_round s (ok (some res)) t v (e, valid, i) next =
      ([], ap delivered i ∙ sym (append-nil _), rw append-nil e, valid)
  after_decode-Answered next_round s (ok none) t v (b, i) next =
      Answered-Took _ _ (Took-refl s t v b i) (next (rw b v) b)
  after_decode-Answered next_round s (err x) t v (n, _, _, b, i) next = ([], Took-refl s t v b i)

  -- One read of a round, from a buffer `b` with room in it that holds the unparsed bytes of `s`.
  module _ (next_round : ImapStream R → Answer parse_response io × ImapStream R) (s : ImapStream R)
      (b : Buffer.Buffer) (inner : R) (valid : IsValid b) (same : data_of b ≡ unparsed s) where
    abbrev before_read : ImapStream R
    before_read = record s { inner = inner; buffer = b }

    nothing_read : delivered inner ≡ delivered s.inner ++ [] → Took s [] before_read
    nothing_read d = record {
      valid = valid;
      delivered_is = d;
      unparsed_is = same ∙ sym (append-nil _);
    }

    at_eof-Answered :
        delivered inner ≡ delivered s.inner ++ []
        → Answered s (at_eof parse_response io before_read)
    unfolding at_eof Buffer.used
    at_eof-Answered d = elim (Bool-cases (ltb 0 b.offset)) [
      | inl some_left ↦ rw some_left ([], nothing_read d)
      | inr none_left ↦
          let empty : b.offset ≡ 0 = ground arith in rw none_left ([], nothing_read d, rw empty)
    ]

    after_read-Answered :
        (read : ReadPoll)
        → delivered inner ≡ delivered s.inner ++ read_bytes read
        → length (read_bytes read) ≤ length (Buffer.free_as_mut_slice b)
        → ((t : ImapStream R)
            → IsValid t.buffer
            → b.offset < t.buffer.offset
            → Answered t (next_round t))
        → Answered s (after_read parse_response io next_round before_read read)
    unfolding after_read
    after_read-Answered ReadPoll.pending d fits next = ([], nothing_read d)
    after_read-Answered (ReadPoll.ready (err e)) d fits next = ([], nothing_read d)
    after_read-Answered (ReadPoll.ready (ok [])) d fits next = at_eof-Answered d
    after_read-Answered (ReadPoll.ready (ok (x ∷ xs))) d fits next =
        let bytes : Bytes = x ∷ xs in
        let (valid', offset', long', data') = extend_used-fill b bytes valid fits in
        let filled = Buffer.extend_used (length bytes) (Buffer.fill bytes b) in
        let mid : ImapStream R = record s { inner = inner; buffer = filled } in
        let took : Took s bytes mid = record {
          valid = valid';
          delivered_is = d;
          unparsed_is = data' ∙ ap (λ t. t ++ bytes) same;
        } in
        let (r, t) = decode parse_response mid in
        Answered-Took _ _ took (
          after_decode-Answered next_round mid r t valid'
            (decode-Decoded parse_response parser mid valid')
            (λ v e. next t v (rw e (omega (arith, offset')))))

  after_capacity-Answered :
      (next_round : ImapStream R → Answer parse_response io × ImapStream R) (s : ImapStream R)
      (grown : IoResult (Unit {0})) (b : Buffer.Buffer)
      → IsValid s.buffer
      → Ensured s.decode_needs s.buffer (grown, b)
      → ((t : ImapStream R)
          → IsValid t.buffer
          → s.buffer.offset < t.buffer.offset
          → Answered t (next_round t))
      → Answered s (after_capacity parse_response io next_round s (grown, b))
  unfolding after_capacity
  after_capacity-Answered next_round s (err e) b v (same, _) next =
      ([], Took-refl s (record s { buffer = b }) v same refl)
  after_capacity-Answered next_round s (ok _) b v (valid, offset, same, room, asked) next =
      let n = length (Buffer.free_as_mut_slice b) in
      after_read-Answered next_round s b _ valid same (io.poll_read n s.inner).0
        (read_delivers n s.inner) (read_fits n s.inner) (λ t v' more. next t v' (rw offset at more))

  -- The buffer holds `max_capacity` bytes at most and each round adds one or more, so that the loop
  -- returns before the fuel runs out, whatever the transport and the parser do.
  read_loop-Answered :
      (fuel : ℕ) (s : ImapStream R)
      → Buffer.max_capacity < s.buffer.offset + fuel
      → IsValid s.buffer
      → Answered s (read_loop parse_response io fuel s)
  unfolding read_loop
  read_loop-Answered zero s h v = absurd (omega (arith, v.within, v.capped))
  read_loop-Answered (suc fuel) s h v =
      let (grown, b) = Buffer.ensure_capacity s.decode_needs s.buffer in
      after_capacity-Answered (read_loop parse_response io fuel) s grown b v
        (ensure_capacity-Ensured s.buffer s.decode_needs v)
        (λ t v' more. read_loop-Answered fuel t (omega arith) v')

  -- On a valid buffer, for every transport whose reads fit and every parser that leaves a proper rest, a
  -- poll returns within `max_capacity` + 2 rounds and keeps the buffer valid. A response that it returns
  -- is what the parser finds at the head of all the bytes that were unparsed or came in, its rest being
  -- what is unparsed then; with an error or a pending read all these bytes are still unparsed, in order;
  -- and the end comes only with none left.
  pub poll_next-Answered :
      (s : ImapStream R) → IsValid s.buffer → Answered s (poll_next parse_response io s)
  unfolding poll_next
  poll_next-Answered s v =
      let (r, t) = decode parse_response s in
      after_decode-Answered (read_loop parse_response io (Buffer.max_capacity + 2)) s r t v
        (decode-Decoded parse_response parser s v)
        (λ v' _. read_loop-Answered (Buffer.max_capacity + 2) t (omega arith) v')
