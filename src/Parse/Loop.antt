-- ===== src/Parse/Loop.antt =====
-- The shared `while let` loop of src/parse.rs over a whole reply: which responses reach the result,
-- which ones are offered to the channel, and what is left in the stream.
use async_imap.Base.{
  ◌≡◌, refl, true, inl, inr, Option, none, some, List, [], ◌∷◌, ◌++◌, map, arith, filter_map, foldl,
  Option-cases,
}
use async_imap.Channel.{Channel, ChannelLaws}
use async_imap.Error.{IoError, IoResult, Outcome, io}
use async_imap.Proto.{RequestId}
use async_imap.Types.Wire.{ResponseData}
use async_imap.Parse.{Item, filter_sync, handle_unilateral, while_filtered}
use async_imap.Parse.Reply.{IsOther, Completes, filter_sync-IsPart, filter_sync-Completes}
use async_imap.Parse.Received.{
  leftovers, leftover_skip, leftover_take, Received-nil, Received-append,
  handle_unilateral-Received, Ran,
}

-- How the items of a reply may end: by the tagged response, by the end of the stream, by an error.
pub data Ending : Type 0 where
  tagged : ResponseData → List Item → Ending
  eof : Ending
  broken : IoError → List Item → Ending

abbrev pub ending_items : Ending → List Item
ending_items (tagged d after) = IoResult.ok d ∷ after
ending_items eof = []
ending_items (broken e after) = IoResult.err e ∷ after

abbrev pub ending_rest : Ending → List Item
ending_rest (tagged d after) = after
ending_rest eof = []
ending_rest (broken e after) = after

-- The response that ends a reply is the one with the tag of the command.
abbrev pub Ends : RequestId → Ending → Type 0
Ends tag (tagged d after) = Completes tag d.parsed
Ends tag eof = Unit
Ends tag (broken e after) = Unit

abbrev pub ending_outcome {ℓ} : {A : Type ℓ} → A → Ending → Outcome A
ending_outcome a (tagged d after) = Outcome.ok a
ending_outcome a eof = Outcome.ok a
ending_outcome a (broken e after) = Outcome.err (io e)

-- No response with the tag of the command.
abbrev pub Within : RequestId → List ResponseData → Type 0
Within tag [] = Unit
Within tag (r ∷ rs) = IsOther tag r.parsed × Within tag rs

module _ {C : Type 0} {ch : Channel C} (laws : ChannelLaws ch) where
  module _ {ℓ κ} {A : Type ℓ} {B : Type κ} (select : ResponseData → Option B) (update : A → B → A)
      (tag : RequestId) where
    while_filtered_ending :
        (ending : Ending)
        → Ends tag ending
        → (acc : A) (c : C) → laws.is_open c ≡ true
        → Ran laws c
            (while_filtered ch select update tag acc (ending_items ending) c)
            (ending_outcome acc ending)
            (ending_rest ending)
            []
    unfolding while_filtered
    while_filtered_ending (tagged d after) e acc c o =
        rw (filter_sync-Completes tag d e, while_filtered)
          (record { result_is = refl; rest_is = refl; received = Received-nil laws c o })
    while_filtered_ending eof e acc c o = record {
      result_is = refl;
      rest_is = refl;
      received = Received-nil laws c o;
    }
    while_filtered_ending (broken x after) e acc c o = record {
      result_is = refl;
      rest_is = refl;
      received = Received-nil laws c o;
    }

    -- One round of the loop, on a response that is passed on and on one that is taken.
    pub while_filtered_skip :
        (r : ResponseData) (acc : A) (rest : List Item) (c : C) {c' : C}
        → filter_sync (IoResult.ok r) tag ≡ true
        → select r ≡ none
        → handle_unilateral ch r c ≡ some c'
        → while_filtered ch select update tag acc (IoResult.ok r ∷ rest) c
          ≡ while_filtered ch select update tag acc rest c'
    unfolding while_filtered
    while_filtered_skip r acc rest c f s h = ground arith

    pub while_filtered_take :
        (r : ResponseData) (acc : A) (rest : List Item) (c : C) {b : B}
        → filter_sync (IoResult.ok r) tag ≡ true
        → select r ≡ some b
        → while_filtered ch select update tag acc (IoResult.ok r ∷ rest) c
          ≡ while_filtered ch select update tag (update acc b) rest c
    unfolding while_filtered
    while_filtered_take r acc rest c f s = ground arith

    -- For an open channel and a reply that ends with its tagged response, the end of the stream or an
    -- error of it: the selected responses are put together in order, whatever the status of the tagged
    -- response; an error of the stream is the result; the others are offered to the channel in order;
    -- and the stream is left just behind the item that ended the reply.
    pub while_filtered-Ran :
        (before : List ResponseData) (ending : Ending) (acc : A) (c : C)
        → Within tag before
        → Ends tag ending
        → laws.is_open c ≡ true
        → Ran laws c
            (while_filtered ch select update tag acc
              (map IoResult.ok before ++ ending_items ending)
              c)
            (ending_outcome (foldl update acc (filter_map select before)) ending)
            (ending_rest ending)
            (leftovers select before)
    unfolding filter_map foldl
    while_filtered-Ran [] ending acc c w e o = while_filtered_ending ending e acc c o
    while_filtered-Ran (r ∷ before) ending acc c (in_reply, w) e o =
        elim (Option-cases (select r)) [
          | inl passed ↦
              let (c', sent, got) = handle_unilateral-Received laws r c o in
              let later = while_filtered-Ran before ending acc c' w e got.open_is in
              rw
                (
                  while_filtered_skip r acc _ c (filter_sync-IsPart tag (IoResult.ok r) in_reply)
                      passed sent,
                  passed,
                  leftover_skip select r passed,
                )
                (record {
                  result_is = later.result_is;
                  rest_is = later.rest_is;
                  received = Received-append laws got later.received;
                })
          | inr (b, taken) ↦
              rw
                (
                  while_filtered_take r acc _ c (filter_sync-IsPart tag (IoResult.ok r) in_reply)
                      taken,
                  taken,
                  leftover_take select r taken,
                )
                (while_filtered-Ran before ending (update acc b) c w e o)
        ]
