-- ===== src/Parse/Streams.antt =====
-- The shared `filter_map(take_while(…))` stream of src/parse.rs over a whole reply.
use async_imap.Base.{
  ℕ, zero, suc, ◌<◌, ◌≡◌, refl, ap, true, inl, inr, Option, none, some, List, [], ◌∷◌, ◌++◌, arith,
  length, filter_map, Option-cases,
}
use async_imap.Channel.{Channel, ChannelLaws}
use async_imap.Error.{IoResult, Outcome, io}
use async_imap.Proto.{RequestId}
use async_imap.Types.Wire.{ResponseData, UnsolicitedResponse}
use async_imap.Parse.{Item, filter_sync, handle_unilateral, take_filtered}
use async_imap.Parse.Reply.{IsPart, Completes, filter_sync-IsPart, filter_sync-Completes}
use async_imap.Parse.Received.{
  leftover, leftover_skip, leftover_take, Received-nil, Received-append, handle_unilateral-Received,
  Ran,
}

-- No item with the tag of the command.
abbrev pub InReply : RequestId → List Item → Type 0
InReply tag [] = Unit
InReply tag (i ∷ is) = IsPart tag i × InReply tag is

module _ {C : Type 0} {ch : Channel C} (laws : ChannelLaws ch) where
  module _ {ℓ} {A : Type ℓ} (select : ResponseData → Option (Outcome A)) (tag : RequestId) where
    pub take_filtered_skip :
        (r : ResponseData) (asked : ℕ) (rest : List Item) (c : C) {c' : C}
        → filter_sync (IoResult.ok r) tag ≡ true
        → select r ≡ none
        → handle_unilateral ch r c ≡ some c'
        → take_filtered ch select tag (suc asked) (IoResult.ok r ∷ rest) c
          ≡ take_filtered ch select tag (suc asked) rest c'
    unfolding take_filtered
    take_filtered_skip r asked rest c f s h = ground arith

    pub take_filtered_take :
        (r : ResponseData) (asked : ℕ) (rest : List Item) (c : C) {a : Outcome A}
        → filter_sync (IoResult.ok r) tag ≡ true
        → select r ≡ some a
        → take_filtered ch select tag (suc asked) (IoResult.ok r ∷ rest) c ≡ (
          a ∷ (take_filtered ch select tag asked rest c).0,
          (take_filtered ch select tag asked rest c).1,
        )
    unfolding take_filtered
    take_filtered_take r asked rest c f s = ground arith

    -- What a caller gets for one item of the reply.
    abbrev pub yielded : Item → Option (Outcome A)
    yielded (IoResult.ok r) = select r
    yielded (IoResult.err e) = some (Outcome.err (io e))

    abbrev pub passed_on : Item → Option UnsolicitedResponse
    passed_on (IoResult.ok r) = leftover select r
    passed_on (IoResult.err e) = none

    -- For an open channel and a reply that ends with its tagged response, a caller that asks for
    -- more items than there are before it gets the selected responses and the errors of the stream,
    -- in order; the other responses are offered to the channel, in order, and the stream is left
    -- behind the tagged one.
    pub take_filtered-Ran :
        (before : List Item) (d : ResponseData) (after : List Item) (asked : ℕ) (c : C)
        → InReply tag before
        → Completes tag d.parsed
        → length before < asked
        → laws.is_open c ≡ true
        → Ran laws c
            (take_filtered ch select tag asked (before ++ IoResult.ok d ∷ after) c)
            (filter_map yielded before)
            after
            (filter_map passed_on before)
    unfolding take_filtered filter_map
    take_filtered-Ran before d after zero c w e h o = absurd (omega arith)
    take_filtered-Ran [] d after (suc asked) c w e h o =
        rw (filter_sync-Completes tag d e, take_filtered)
          (record { result_is = refl; rest_is = refl; received = Received-nil laws c o })
    take_filtered-Ran (IoResult.err x ∷ before) d after (suc asked) c (in_reply, w) e h o =
        let later = take_filtered-Ran before d after asked c w e (omega arith) o in
        record {
          result_is = ap (◌∷◌ (Outcome.err (io x))) later.result_is;
          rest_is = later.rest_is;
          received = later.received;
        }
    take_filtered-Ran (IoResult.ok r ∷ before) d after (suc asked) c (in_reply, w) e h o =
        elim (Option-cases (select r)) [
          | inl passed ↦
              let (c', sent, got) = handle_unilateral-Received laws r c o in
              let later =
                take_filtered-Ran before d after (suc asked) c' w e (omega arith) got.open_is in
              rw
                (
                  take_filtered_skip r asked _ c (filter_sync-IsPart tag (IoResult.ok r) in_reply)
                      passed sent,
                  passed,
                  leftover_skip select r passed,
                )
                (record {
                  result_is = later.result_is;
                  rest_is = later.rest_is;
                  received = Received-append laws got later.received;
                })
          | inr (a, taken) ↦
              let later = take_filtered-Ran before d after asked c w e (omega arith) o in
              rw
                (
                  take_filtered_take r asked _ c (filter_sync-IsPart tag (IoResult.ok r) in_reply)
                      taken,
                  taken,
                  leftover_take select r taken,
                )
                (record {
                  result_is = ap (◌∷◌ a) later.result_is;
                  rest_is = later.rest_is;
                  received = later.received;
                })
        ]
