-- ===== src/ImapStream/Decode.antt =====
-- What one call of `decode` of src/imap_stream.rs does.
use async_imap.Base.{
  ℕ, ◌<◌, ◌≡◌, refl, sym, ap, ◌∙◌, Bool-cases, inl, inr, none, some, length, length-append,
  length-take_le, ltb, arith,
}
use async_imap.Base.Text.{Bytes}
use async_imap.Error.{IoResult, ok, err}
use async_imap.Types.Wire.{ResponseData}
use async_imap.ImapStream.Buffer
use async_imap.ImapStream.Buffer.Capacity.{IsValid, reset_with_data-IsValid}
use async_imap.ImapStream.Laws.{ParserLaws, unparsed}
use async_imap.ImapStream.{
  Parsed, done, incomplete_size, incomplete_unknown, failed, ImapStream, decode, decode_answer,
  during_parsing,
}
use async_imap.Base.{Option}

module _ {R : Type 0} (parse_response : Bytes → Parsed) where
  -- A response is what the parser finds at the head of the unparsed bytes, and what it leaves stays
  -- unparsed; with no response, or an error of the parser, the buffer is as before.
  abbrev pub Decoded : ImapStream R → IoResult (Option ResponseData) × ImapStream R → Type 0
  Decoded s (ok (some res), s') =
      (parse_response (unparsed s) ≡ done (unparsed s') res.parsed)
      × IsValid s'.buffer
      × (s'.inner ≡ s.inner)
  Decoded s (ok none, s') = (s'.buffer ≡ s.buffer) × (s'.inner ≡ s.inner)
  Decoded s (err e, s') =
      (n : ℕ) × (parse_response (unparsed s) ≡ failed n)
      × (e ≡ during_parsing n (unparsed s))
      × (s'.buffer ≡ s.buffer)
      × (s'.inner ≡ s.inner)

  module _ (laws : ParserLaws parse_response) where
    decode_answer-Decoded :
        (s : ImapStream R) (answer : Parsed)
        → IsValid s.buffer
        → parse_response (unparsed s) ≡ answer
        → Decoded s (
            decode_answer parse_response
              (record s { buffer = (Buffer.take_block s.buffer).1 })
              s.buffer.block
              (unparsed s)
              answer)
    unfolding decode_answer Buffer.take_block Buffer.return_block Buffer.used
    decode_answer-Decoded s (done remaining response) v e =
        let (consumed, splits, some_byte) = laws.done_lem (unparsed s) remaining response e in
        let small : length remaining < Buffer.max_capacity = omega (
          arith,
          v.within,
          v.capped,
          ap length splits,
          length-append consumed remaining,
          length-take_le s.buffer.offset s.buffer.block v.within,
        ) in
        let (valid, room, kept) =
          reset_with_data-IsValid (Buffer.take_block s.buffer).1 remaining small in
        (e ∙ ap (λ t. done t response) (sym kept), valid, refl)
    decode_answer-Decoded s (incomplete_size min) v e = (refl, refl)
    decode_answer-Decoded s incomplete_unknown v e = (refl, refl)
    decode_answer-Decoded s (failed other) v e = (other, e, refl, refl, refl)

    -- On a valid buffer, for a parser that leaves a proper rest: a response is what the parser finds at
    -- the head of the unparsed bytes, and its rest stays unparsed in a valid buffer; with no response,
    -- or with an error of the parser, the buffer is as before.
    pub decode-Decoded : (s : ImapStream R) → IsValid s.buffer → Decoded s (decode parse_response s)
    unfolding decode Buffer.take_block Buffer.used
    decode-Decoded s v = elim (Bool-cases (ltb s.buffer.offset s.decode_needs)) [
      | inl wait ↦ rw wait (refl, refl)
      | inr parse ↦ rw parse (decode_answer-Decoded s _ v refl)
    ]
