-- ===== src/ImapStream/Exact.antt =====
-- What the polls of src/imap_stream.rs give where a server sends whole responses: its responses, in
-- order, none split, merged or left out.
use async_imap.Base.{
  ℕ, ◌<◌, ◌≡◌, ◌⊎◌, inl, inr, refl, sym, ap, ◌∙◌, List, [], ◌∷◌, ◌++◌, append_assoc, append-nil,
  map, filter_map, length, length-append, arith,
}
use async_imap.Base.Text.{Bytes}
use async_imap.ImapStream.Buffer.Capacity.{new-IsValid, new-empty}
use async_imap.ImapStream.Framing.{Framed, polls, polled, polls-Polled}
use async_imap.ImapStream.Laws.{ParserLaws, TransportLaws, unparsed}
use async_imap.ImapStream.{Parsed, done, Transport, new}
use async_imap.Proto.{Response}
use async_imap.Types.Wire.{ResponseData}

-- Two ways to split a list: one cut is at or before the other.
append_split {ℓ} :
    {A : Type ℓ} (xs ys us vs : List A)
    → xs ++ ys ≡ us ++ vs
    → ((m : List A) × (xs ≡ us ++ m) × (vs ≡ m ++ ys))
      ⊎ ((m : List A) × (us ≡ xs ++ m) × (0 < length m))
append_split xs ys [] vs h = inl (xs, refl, sym h)
append_split [] ys (u ∷ us) vs h = inr (u ∷ us, refl, omega arith)
append_split (x ∷ xs) ys (u ∷ us) vs h = elim (append_split xs ys us vs cc) [
  | inl (m, p, q) ↦ inl (m, cc, q)
  | inr (m, p, q) ↦ inr (m, cc, q)
]

-- A response as the server writes it: its bytes, and what it says.
pub record Frame : Type 0 where
  pub bytes : Bytes
  pub response : Response

abbrev pub bytes_of : List Frame → Bytes
bytes_of [] = []
bytes_of (f ∷ fs) = f.bytes ++ bytes_of fs

abbrev pub parsed_of : ResponseData → Response
parsed_of r = r.parsed

abbrev pub response_of : Frame → Response
response_of f = f.response

-- The parser finds the response at the head of its bytes, whatever follows, and finds none in less
-- than all of them.
pub record IsFrame (parse_response : Bytes → Parsed) (f : Frame) : Type 0 where
  pub whole : (rest : Bytes) → parse_response (f.bytes ++ rest) ≡ done rest f.response
  pub partial :
      (start missing rest : Bytes) (r : Response)
      → f.bytes ≡ start ++ missing
      → 0 < length missing
      → ¬ (parse_response start ≡ done rest r)

abbrev pub AllFrames : (Bytes → Parsed) → List Frame → Type 0
AllFrames parse_response [] = Unit
AllFrames parse_response (f ∷ fs) = IsFrame parse_response f × AllFrames parse_response fs

-- The responses are those of the first frames, and `left` is what is left of all bytes behind them.
pub record Served (fs : List Frame) (rs : List ResponseData) (left : Bytes) : Type 0 where
  pub seen : List Frame
  pub still : List Frame
  pub frames_are : fs ≡ seen ++ still
  pub responses_are : map parsed_of rs ≡ map response_of seen
  pub left_is : left ≡ bytes_of still

append_cancel {ℓ} : {A : Type ℓ} (xs : List A) {ys zs : List A} → xs ++ ys ≡ xs ++ zs → ys ≡ zs
append_cancel [] h = h
append_cancel (x ∷ xs) h = append_cancel xs cc

done_inj :
    {rest rest' : Bytes} {r r' : Response} → done rest r ≡ done rest' r' → (rest ≡ rest') × (r ≡ r')
done_inj h = (cc, cc)

Served-cons :
    (f : Frame) {fs : List Frame} (res : ResponseData) {rs : List ResponseData} {left : Bytes}
    → res.parsed ≡ f.response
    → Served fs rs left
    → Served (f ∷ fs) (res ∷ rs) left
Served-cons f res e s = record {
  seen = f ∷ s.seen;
  still = s.still;
  frames_are = ap (◌∷◌ f) s.frames_are;
  responses_are = cc (e, s.responses_are);
  left_is = s.left_is;
}

-- The response found at the head of bytes that begin with a whole frame is that of the frame, and what
-- is left begins behind it.
frame_first :
    {parse_response : Bytes → Parsed} (f : Frame) (fs : List Frame)
    (head later future rest m : Bytes) (r : Response)
    → IsFrame parse_response f
    → f.bytes ++ bytes_of fs ≡ head ++ (later ++ future)
    → parse_response head ≡ done rest r
    → head ≡ f.bytes ++ m
    → (r ≡ f.response) × ((rest ++ later) ++ future ≡ bytes_of fs)
frame_first {parse_response} f fs head later future rest m r a e parsed h =
    let (rest_is, r_is) = done_inj (sym (a.whole m) ∙ ap parse_response (sym h) ∙ parsed) in
    (
      sym r_is,
      append_assoc rest later future
          ∙ ap (λ t. t ++ (later ++ future)) (sym rest_is)
          ∙ sym (
              append_cancel f.bytes (
                e ∙ ap (λ t. t ++ (later ++ future)) h ∙ append_assoc f.bytes m (later ++ future))),
    )

module _ {parse_response : Bytes → Parsed} (parser : ParserLaws parse_response) where
  nothing_found :
      (u now later future rest : Bytes) (r : Response)
      → [] ≡ (u ++ now) ++ (later ++ future)
      → ¬ (parse_response (u ++ now) ≡ done rest r)
  nothing_found u now later future rest r e parsed =
      let (consumed, split, some_consumed) = parser.done_lem (u ++ now) rest r parsed in
      omega (
        arith,
        ap length e,
        ap length split,
        length-append consumed rest,
        length-append (u ++ now) (later ++ future),
      )

  regroup :
      (u w now later future all : Bytes)
      → (u ++ w) ++ future ≡ all
      → w ≡ now ++ later
      → all ≡ (u ++ now) ++ (later ++ future)
  regroup u w now later future all e h = sym e ∙ simp (h, append_assoc)

  Framed-Served :
      (fs : List Frame) (u w future : Bytes) (rs : List ResponseData) (r : Bytes)
      → AllFrames parse_response fs
      → (u ++ w) ++ future ≡ bytes_of fs
      → Framed parse_response u w rs r
      → Served fs rs (r ++ future)
  Framed-Served fs u w future [] r a e h = record {
    seen = [];
    still = fs;
    frames_are = refl;
    responses_are = refl;
    left_is = rw h e;
  }
  Framed-Served [] u w future (res ∷ rs) r a e (now, later, rest, splits, parsed, more) = absurd (
      nothing_found u now later future rest res.parsed (regroup u w now later future [] e splits)
        parsed)
  Framed-Served (f ∷ fs) u w future (res ∷ rs) r (a, frames) e
        (now, later, rest, splits, parsed, more) =
      let all = regroup u w now later future (f.bytes ++ bytes_of fs) e splits in
      elim (append_split f.bytes (bytes_of fs) (u ++ now) (later ++ future) all) [
        | inl ([], exact, _) ↦
            let (is, left) =
              frame_first f fs (u ++ now) later future rest [] res.parsed a all parsed
                (sym (append-nil (u ++ now)) ∙ sym exact ∙ sym (append-nil f.bytes)) in
            Served-cons f res is (Framed-Served fs rest later future rs r frames left more)
        | inl (x ∷ m, short, _) ↦
            absurd (a.partial (u ++ now) (x ∷ m) rest res.parsed short (omega arith) parsed)
        | inr (m, longer, _) ↦
            let (is, left) =
              frame_first f fs (u ++ now) later future rest m res.parsed a all parsed longer in
            Served-cons f res is (Framed-Served fs rest later future rs r frames left more)
      ]

  module _ {R : Type 0} {io : Transport R} (transport : TransportLaws io) where
    -- On a new stream, where the bytes that the transport has handed out by then and those still to
    -- come are a list of responses, each of which the parser finds exactly when all of its bytes are
    -- there: after any number of polls, whatever errors and pending reads came between and however the
    -- bytes were cut, the responses given are the first ones of the list, in order, and the bytes of all
    -- others are unparsed or still to come.
    pub polls-Served :
        (n : ℕ) (r : R) (fs : List Frame) (future : Bytes)
        → transport.delivered r ≡ []
        → AllFrames parse_response fs
        → transport.delivered (polls parse_response io n (new r)).1.inner ++ future ≡ bytes_of fs
        → Served fs
            (filter_map (polled parse_response io) (polls parse_response io n (new r)).0)
            (unparsed (polls parse_response io n (new r)).1 ++ future)
    unfolding new
    polls-Served n r fs future fresh frames e =
        let p = polls-Polled parser transport n (new r) new-IsValid in
        Framed-Served fs (unparsed (new r)) p.incoming future _ _ frames
          (ap (λ t. (t ++ p.incoming) ++ future) new-empty
            ∙ ap (λ t. t ++ future) (sym (p.delivered_is ∙ ap (λ t. t ++ p.incoming) fresh))
            ∙ e)
          p.framed
