-- ===== src/Parse/Readers/Refusals.antt =====
-- The readers of src/parse.rs that stop at the tagged response do not look at its status.
use async_imap.Base.{
  ◌≡◌, refl, sym, ap, ◌∙◌, Option-cases, inl, inr, Option, List, [], ◌∷◌, ◌++◌, arith,
}
use async_imap.Base.Text.{Bytes, equal_refl}
use async_imap.Channel.{Channel}
use async_imap.Error.{IoResult, ok, ◌>>=◌}
use async_imap.Parse.{Item, filter_sync, handle_unilateral, while_filtered}
use async_imap.Parse.Readers.{parse_ids, parse_capabilities, parse_metadata, parse_noop}
use async_imap.Proto.{RequestId, Response, Status, ResponseCode}
use async_imap.Types.Wire.{ResponseData}

-- The tagged response of a command, with any status.
abbrev pub completion : Bytes → RequestId → Status → Option ResponseCode → Option Bytes → Item
completion owner tag status code information =
    IoResult.ok (record { owner = owner; parsed = Response.done tag status code information })

module _ {C : Type 0} (ch : Channel C) (tag : RequestId) (o p : Bytes) (s t : Status)
    (i j : Option ResponseCode) (k l : Option Bytes) (after : List Item) where
  module _ {ℓ κ} {A : Type ℓ} {B : Type κ} (select : ResponseData → Option B)
      (update : A → B → A) where
    stopped_result :
        (acc : A) (c : C) (o : Bytes) (s : Status) (i : Option ResponseCode) (k : Option Bytes)
        → (while_filtered ch select update tag acc (completion o tag s i k ∷ after) c).0 ≡ ok acc
    unfolding while_filtered filter_sync
    stopped_result acc c o s i k = ground (arith, equal_refl tag)

    while_filtered_status :
        (before : List Item) (acc : A) (c : C)
        → (while_filtered ch select update tag acc (before ++ completion o tag s i k ∷ after) c).0
          ≡ (while_filtered ch select update tag acc (before ++ completion p tag t j l ∷ after) c).0
    unfolding while_filtered
    while_filtered_status [] acc c =
        stopped_result acc c o s i k ∙ sym (stopped_result acc c p t j l)
    while_filtered_status (IoResult.err e ∷ before) acc c = refl
    while_filtered_status (IoResult.ok r ∷ before) acc c = elim (Option-cases (select r)) [
      | inl passed ↦ elim (Option-cases (handle_unilateral ch r c)) [
        | inl closed ↦ ground arith
        | inr (c', sent) ↦ ground (arith, while_filtered_status before acc c')
      ]
      | inr (b, taken) ↦ ground (arith, while_filtered_status before (update acc b) c)
    ]

  -- Whatever came before on the stream, the results of `parse_ids`, `parse_capabilities` and
  -- `parse_metadata` are the same for a tagged response with any one status as for one with any
  -- other, `NO` and `BAD` included; and `parse_noop` succeeds at a tagged response with any status.
  pub refusal_is_success :
      (mailbox_name : Bytes) (before : List Item) (c : C)
      → ((parse_ids ch tag (before ++ completion o tag s i k ∷ after) c).0
          ≡ (parse_ids ch tag (before ++ completion p tag t j l ∷ after) c).0)
        × ((parse_capabilities ch tag (before ++ completion o tag s i k ∷ after) c).0
            ≡ (parse_capabilities ch tag (before ++ completion p tag t j l ∷ after) c).0)
        × ((parse_metadata ch mailbox_name tag (before ++ completion o tag s i k ∷ after) c).0
            ≡ (parse_metadata ch mailbox_name tag (before ++ completion p tag t j l ∷ after) c).0)
        × ((parse_noop ch tag (completion o tag s i k ∷ after) c).0 ≡ ok tt)
  unfolding parse_ids parse_capabilities parse_metadata parse_noop
  refusal_is_success mailbox_name before c = (
    while_filtered_status _ _ before [] c,
    ap (λ t. t >>= λ set. ok (record { set = set })) (while_filtered_status _ _ before [] c),
    while_filtered_status _ _ before [] c,
    stopped_result _ _ tt c o s i k,
  )
