-- ===== src/ImapStream/Framing.antt =====
-- What a caller gets who polls the stream of src/imap_stream.rs again and again.
use async_imap.Base.{
  ℕ, zero, suc, ◌≡◌, refl, sym, ap, ◌∙◌, Option, none, some, List, [], ◌∷◌, ◌++◌, append_assoc,
  append-nil, filter_map,
}
use async_imap.Base.Text.{Bytes}
use async_imap.Error.{ok, err}
use async_imap.ImapStream.Buffer.Capacity.{IsValid}
use async_imap.ImapStream.Laws.{ParserLaws, TransportLaws, unparsed}
use async_imap.ImapStream.Reading.{Took, Answered, poll_next-Answered}
use async_imap.ImapStream.{Parsed, done, Transport, ImapStream, Poll, Answer, poll_next}
use async_imap.Types.Wire.{ResponseData}

-- From the unparsed bytes `u` and the bytes `w` that come in meanwhile, the parser finds the responses
-- one after the other, each at the head of what is unparsed then, and `r` is left unparsed.
abbrev pub Framed : (Bytes → Parsed) → Bytes → Bytes → List ResponseData → Bytes → Type 0
Framed parse_response u w [] r = r ≡ u ++ w
Framed parse_response u w (res ∷ rs) r =
    (now : Bytes) × (later : Bytes) × (rest : Bytes) × (w ≡ now ++ later)
    × (parse_response (u ++ now) ≡ done rest res.parsed)
    × Framed parse_response rest later rs r

Framed-shift :
    (parse_response : Bytes → Parsed) (u v w : Bytes) (rs : List ResponseData) (r : Bytes)
    → Framed parse_response (u ++ v) w rs r
    → Framed parse_response u (v ++ w) rs r
Framed-shift parse_response u v w [] r h = h ∙ append_assoc u v w
Framed-shift parse_response u v w (res ∷ rs) r (now, later, rest, splits, parsed, more) = (
  v ++ now,
  later,
  rest,
  rw splits (sym (append_assoc v now later)),
  ap parse_response (sym (append_assoc u v now)) ∙ parsed,
  more,
)

module _ {R : Type 0} (parse_response : Bytes → Parsed) (io : Transport R) where
  -- `n` polls of the stream.
  unfoldable pub polls : ℕ → ImapStream R → List (Answer parse_response io) × ImapStream R
  polls zero s = ([], s)
  polls (suc n) s =
      let (answer, t) = poll_next parse_response io s in
      let (answers, t') = polls n t in (answer ∷ answers, t')

  -- The response of a poll, if it has one.
  abbrev pub polled : Answer parse_response io → Option ResponseData
  polled (some (Poll.ready (some (ok res)))) = some res
  polled _ = none

module _ {R : Type 0} {parse_response : Bytes → Parsed} {io : Transport R}
    (parser : ParserLaws parse_response) (transport : TransportLaws io) where
  open transport use {delivered}

  -- From `s`, the answers are those of polls that came to `s'`.
  pub record Polled (s : ImapStream R) (answers : List (Answer parse_response io))
      (s' : ImapStream R) : Type 0 where
    pub incoming : Bytes
    pub delivered_is : delivered s'.inner ≡ delivered s.inner ++ incoming
    pub framed :
        Framed parse_response
          (unparsed s)
          incoming
          (filter_map (polled parse_response io) answers)
          (unparsed s')
    pub valid : IsValid s'.buffer

  after-Took :
      {s t t' : ImapStream R} {answers : List (Answer parse_response io)} (w : Bytes)
      (a : Answer parse_response io)
      → polled parse_response io a ≡ none
      → Took parser transport s w t
      → Polled t answers t'
      → Polled s (a ∷ answers) t'
  unfolding filter_map
  after-Took {s} {t} {t'} {answers} w a silent took p = record {
    incoming = w ++ p.incoming;
    delivered_is =
        p.delivered_is ∙ rw took.delivered_is (append_assoc (delivered s.inner) w p.incoming);
    framed =
        let later = filter_map (polled parse_response io) answers in
        rw silent (
          Framed-shift parse_response (unparsed s) w p.incoming later (unparsed t')
            (rw (sym took.unparsed_is) p.framed));
    valid = p.valid;
  }

  after-Polled :
      (s t t' : ImapStream R) (a : Answer parse_response io)
      (answers : List (Answer parse_response io))
      → Answered parser transport s (a, t)
      → (IsValid t.buffer → Polled t answers t')
      → Polled s (a ∷ answers) t'
  unfolding filter_map
  after-Polled s t t' (some (Poll.ready (some (ok res)))) answers (w, d, parsed, v) next =
      let p = next v in
      record {
        incoming = w ++ p.incoming;
        delivered_is = p.delivered_is ∙ rw d (append_assoc (delivered s.inner) w p.incoming);
        framed = (w, p.incoming, unparsed t, refl, parsed, p.framed);
        valid = p.valid;
      }
  after-Polled s t t' (some (Poll.ready (some (err e)))) answers (w, took) next =
      after-Took w _ refl took (next took.valid)
  after-Polled s t t' (some (Poll.ready none)) answers (w, took, empty) next =
      after-Took w _ refl took (next took.valid)
  after-Polled s t t' (some Poll.pending) answers (w, took) next =
      after-Took w _ refl took (next took.valid)
  after-Polled s t t' none answers h next = absurd h

  -- On a valid buffer, for every transport whose reads fit and every parser that leaves a proper rest,
  -- any number of polls gives the responses that the parser finds one after the other in the bytes that
  -- were unparsed or came in, each from where the one before it ended, whatever errors and pending reads
  -- came between; what is left over is unparsed, and the buffer is valid.
  pub polls-Polled :
      (n : ℕ) (s : ImapStream R)
      → IsValid s.buffer
      → Polled s (polls parse_response io n s).0 (polls parse_response io n s).1
  unfolding polls
  polls-Polled zero s v = record {
    incoming = [];
    delivered_is = sym (append-nil _);
    framed = unfold filter_map in sym (append-nil _);
    valid = v;
  }
  polls-Polled (suc n) s v =
      let (a, t) = poll_next parse_response io s in
      after-Polled s t _ a _ (poll_next-Answered parser transport s v) (λ v'. polls-Polled n t v')
