-- ===== src/ImapStream/Fuel.antt =====
-- The loop of `poll_next` in src/imap_stream.rs ends: with more rounds allowed it gives the same answer.
use async_imap.Base.{ℕ, zero, suc, ◌+◌, ◌≤◌, ◌≡◌, refl, ap, Option, none, some, [], ◌∷◌, arith}
use async_imap.Base.Text.{Bytes}
use async_imap.Error.{IoResult, ok, err}
use async_imap.ImapStream.{
  Parsed, Transport, ImapStream, Poll, ReadPoll, Answer, poll_next, read_loop, decode, after_decode,
  after_read, after_capacity,
}
use async_imap.ImapStream.Buffer
use async_imap.ImapStream.Buffer.Capacity.{IsValid}
use async_imap.ImapStream.Laws.{ParserLaws, TransportLaws}
use async_imap.ImapStream.Reading.{Answered, poll_next-Answered}
use async_imap.Types.Wire.{ResponseData}

module _ {R : Type 0} (parse_response : Bytes → Parsed) (io : Transport R) where
  -- What a poll answers.
  abbrev pub Reply : Type 0
  Reply = Poll (Option (IoResult ResponseData))

  -- Where `f` answers, `g` gives the same answer and state.
  abbrev Agrees :
      (ImapStream R → Answer parse_response io × ImapStream R)
      → (ImapStream R → Answer parse_response io × ImapStream R)
      → Type 0
  Agrees f g =
      (s : ImapStream R) (x : Reply) (t : ImapStream R) → f s ≡ (some x, t) → g s ≡ (some x, t)

  module _ (f g : ImapStream R → Answer parse_response io × ImapStream R) (same : Agrees f g)
      (x : Reply) (t : ImapStream R) where
    after_decode_same :
        (r : IoResult (Option ResponseData)) (s : ImapStream R)
        → after_decode parse_response io f (r, s) ≡ (some x, t)
        → after_decode parse_response io g (r, s) ≡ (some x, t)
    unfolding after_decode
    after_decode_same (ok (some response)) s h = h
    after_decode_same (ok none) s h = same s x t h
    after_decode_same (err e) s h = h

    after_read_same :
        (read : ReadPoll) (s : ImapStream R)
        → after_read parse_response io f s read ≡ (some x, t)
        → after_read parse_response io g s read ≡ (some x, t)
    unfolding after_read
    after_read_same ReadPoll.pending s h = h
    after_read_same (ReadPoll.ready (err e)) s h = h
    after_read_same (ReadPoll.ready (ok [])) s h = h
    after_read_same (ReadPoll.ready (ok (b ∷ bs))) s h = after_decode_same _ _ h

    after_capacity_same :
        (grown : IoResult (Unit {0})) (b : Buffer.Buffer) (s : ImapStream R)
        → after_capacity parse_response io f s (grown, b) ≡ (some x, t)
        → after_capacity parse_response io g s (grown, b) ≡ (some x, t)
    unfolding after_capacity
    after_capacity_same (err e) b s h = h
    after_capacity_same (ok _) b s h = after_read_same _ _ h

  -- A loop that answers gives the same answer with more fuel.
  pub read_loop-Agrees :
      (fuel more : ℕ)
      → fuel ≤ more
      → Agrees (read_loop parse_response io fuel) (read_loop parse_response io more)
  unfolding read_loop
  read_loop-Agrees zero more h s x t e = absurd (ground arith)
  read_loop-Agrees (suc fuel) zero h s x t e = absurd (omega arith)
  read_loop-Agrees (suc fuel) (suc more) h s x t e =
      after_capacity_same (read_loop parse_response io fuel) (read_loop parse_response io more)
        (read_loop-Agrees fuel more (omega arith)) x t _ _ s e

module _ {R : Type 0} {parse_response : Bytes → Parsed} {io : Transport R}
    (parser : ParserLaws parse_response) (transport : TransportLaws io) where
  answer_of :
      (s : ImapStream R) (a : Answer parse_response io) (t : ImapStream R)
      → Answered parser transport s (a, t)
      → (x : Reply parse_response io) × (a ≡ some x)
  answer_of s none t h = absurd h
  answer_of s (some x) t h = (x, refl)

  -- On a valid buffer, for any parser that leaves a proper rest and any transport whose reads fit, a
  -- poll answers, and its loop gives the same answer and leaves the same stream for every number of
  -- rounds from `max_capacity` + 2 on: the loop of the source, which has no such number, ends with it.
  pub poll_next-ends :
      (s : ImapStream R)
      → IsValid s.buffer
      → (x : Reply parse_response io) × (t : ImapStream R) × (poll_next parse_response io s
          ≡ (some x, t))
        × ((fuel : ℕ)
            → Buffer.max_capacity + 2 ≤ fuel
            → after_decode parse_response io
                (read_loop parse_response io fuel)
                (decode parse_response s)
              ≡ (some x, t))
  unfolding poll_next
  poll_next-ends s v =
      let (x, answered) =
        answer_of s (poll_next parse_response io s).0 (poll_next parse_response io s).1
          (poll_next-Answered parser transport s v) in
      (
        x,
        (poll_next parse_response io s).1,
        ap (λ (a : Answer parse_response io). (a, (poll_next parse_response io s).1)) answered,
        λ fuel h.
            after_decode_same parse_response io
              (read_loop parse_response io (Buffer.max_capacity + 2))
              (read_loop parse_response io fuel)
              (read_loop-Agrees parse_response io (Buffer.max_capacity + 2) fuel h) x _ _ _
              (ap (λ (a : Answer parse_response io). (a, (poll_next parse_response io s).1))
                answered),
      )
