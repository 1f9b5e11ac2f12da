-- ===== src/Parse.antt =====
-- src/parse.rs: the readers of the replies to a command, over the responses that the stream yields.
-- A stream is the list of the items that it will yield; what a reader leaves is the rest of the list.
pub mod Received
pub mod Reply
pub mod Loop
pub mod Streams
pub mod Taken
pub mod Readers
pub mod Mailbox
use async_imap.Base.{ℕ, Bool, true, false, not, Option, none, some, List, [], ◌∷◌, if◌then◌else◌}
use async_imap.Base.Text.{equal}
use async_imap.Channel.{Channel}
use async_imap.Error.{IoResult, Outcome, io}
use async_imap.Proto.{RequestId, Response, MailboxDatum}
use async_imap.Types.Wire.{ResponseData, UnsolicitedResponse}

-- One item of the stream.
abbrev pub Item : Type 0
Item = IoResult ResponseData

-- What a reader works on: the items to come, and the channel for unsolicited responses.
pub record Feed (C : Type 0) : Type 0 where
  pub incoming : List Item
  pub chan : C

unfoldable pub done_with_other_tag : RequestId → Response → Bool
done_with_other_tag command_tag (Response.done tag _ _ _) = not (equal tag command_tag)
done_with_other_tag command_tag _ = true

-- `filter` and `filter_sync`: whether the item is still part of the reply.
unfoldable pub filter_sync : Item → RequestId → Bool
unfolding done_with_other_tag
filter_sync (IoResult.ok res) command_tag = done_with_other_tag command_tag res.parsed
filter_sync (IoResult.err e) command_tag = true

-- What `handle_unilateral` sends for a response.
unfoldable pub message_of : ResponseData → Response → UnsolicitedResponse
message_of res (Response.mailbox_data (MailboxDatum.status mailbox status)) =
    UnsolicitedResponse.status mailbox status
message_of res (Response.mailbox_data (MailboxDatum.recent n)) = UnsolicitedResponse.recent n
message_of res (Response.mailbox_data (MailboxDatum.exists n)) = UnsolicitedResponse.exists n
message_of res (Response.expunge n) = UnsolicitedResponse.expunge n
message_of res _ = UnsolicitedResponse.other res

module _ {C : Type 0} (ch : Channel C) where
  -- `none` is the panic of `expect`, on a closed channel.
  unfoldable pub handle_unilateral : ResponseData → C → Option C
  handle_unilateral res c = if ch.is_full c then some c else ch.send (message_of res res.parsed) c

  -- `while let Some(resp) = stream.take_while(|res| filter(res, &command_tag)).next().await`, with
  -- the body that the readers share: a response that `select` takes is put into the result by
  -- `update`, and any other one goes to `handle_unilateral`.
  unfoldable pub while_filtered {ℓ κ} :
      {A : Type ℓ} {B : Type κ} (select : ResponseData → Option B) (update : A → B → A)
      → RequestId
      → A
      → List Item
      → C
      → Outcome A × Feed C
  while_filtered select update command_tag acc [] c =
      (Outcome.ok acc, record { incoming = []; chan = c })
  while_filtered select update command_tag acc (IoResult.err e ∷ rest) c =
      (Outcome.err (io e), record { incoming = rest; chan = c })
  while_filtered select update command_tag acc (IoResult.ok resp ∷ rest) c =
      elim (filter_sync (IoResult.ok resp) command_tag) [
        | false ↦ (Outcome.ok acc, record { incoming = rest; chan = c })
        | true ↦ elim (select resp) [
          | some b ↦ while_filtered select update command_tag (update acc b) rest c
          | none ↦ elim (handle_unilateral resp c) [
            | some c' ↦ while_filtered select update command_tag acc rest c'
            | none ↦ (Outcome.panic, record { incoming = rest; chan = c })
          ]
        ]
      ]

  -- `filter_map(take_while(stream, filter), …)`, of which a caller takes at most `asked` items.
  -- A response that `select` takes is an item, an error of the stream is one, and any other response
  -- goes to `handle_unilateral`. After the tagged response the stream is at its end for good.
  unfoldable pub take_filtered {ℓ} :
      {A : Type ℓ} (select : ResponseData → Option (Outcome A))
      → RequestId
      → ℕ
      → List Item
      → C
      → List (Outcome A) × Feed C
  take_filtered select command_tag ℕ.zero items c = ([], record { incoming = items; chan = c })
  take_filtered select command_tag (ℕ.suc asked) [] c = ([], record { incoming = []; chan = c })
  take_filtered select command_tag (ℕ.suc asked) (IoResult.err e ∷ rest) c =
      let (items, feed) = take_filtered select command_tag asked rest c in
      (Outcome.err (io e) ∷ items, feed)
  take_filtered select command_tag (ℕ.suc asked) (IoResult.ok resp ∷ rest) c =
      elim (filter_sync (IoResult.ok resp) command_tag) [
        | false ↦ ([], record { incoming = rest; chan = c })
        | true ↦ elim (select resp) [
          | some a ↦
              let (items, feed) = take_filtered select command_tag asked rest c in (a ∷ items, feed)
          | none ↦ elim (handle_unilateral resp c) [
            | some c' ↦ take_filtered select command_tag (ℕ.suc asked) rest c'
            | none ↦ (Outcome.panic ∷ [], record { incoming = rest; chan = c })
          ]
        ]
      ]
