-- ===== src/Channel.antt =====
-- The bounded channel of the crate async-channel, by the documented behaviour of the calls that the
-- program makes: `bounded`, `is_full`, `send`, and by what the owner of its receiver does: `try_recv`.
use async_imap.Base.{
  ℕ, ◌<◌, ◌≡◌, Bool, true, false, Option, none, some, List, [], ◌∷◌, ◌++◌, leb, length,
}
use async_imap.Types.Wire.{UnsolicitedResponse}

pub record Channel (C : Type 0) : Type 0 where
  -- `bounded(capacity)`
  pub bounded : ℕ → C
  pub is_full : C → Bool
  -- `send(message)`, on a channel that is not full; `none` if the channel is closed
  pub send : UnsolicitedResponse → C → Option C

-- What the crate documents.
pub record ChannelLaws {C : Type 0} (ch : Channel C) : Type 0 where
  pub queue : C → List UnsolicitedResponse
  pub capacity : C → ℕ
  pub is_open : C → Bool
  pub is_full_lem : (c : C) → ch.is_full c ≡ leb (capacity c) (length (queue c))
  pub bounded_lem :
      (n : ℕ)
      → (queue (ch.bounded n) ≡ [])
        × (capacity (ch.bounded n) ≡ n)
        × (is_open (ch.bounded n) ≡ true)
  pub send_open :
      (m : UnsolicitedResponse) (c : C)
      → is_open c ≡ true
      → length (queue c) < capacity c
      → (c' : C) × (ch.send m c ≡ some c')
        × (queue c' ≡ queue c ++ m ∷ [])
        × (capacity c' ≡ capacity c)
        × (is_open c' ≡ true)
  pub send_closed : (m : UnsolicitedResponse) (c : C) → is_open c ≡ false → ch.send m c ≡ none

-- The other end: `try_recv`, which gives the next message, and the channel without it.
pub record Receiver (C : Type 0) : Type 0 where
  pub recv : C → Option (UnsolicitedResponse × C)

pub record ReceiverLaws {C : Type 0} {ch : Channel C} (laws : ChannelLaws ch) (rx : Receiver C)
    : Type 0 where
  pub recv_lem :
      (c c' : C) (m : UnsolicitedResponse)
      → rx.recv c ≡ some (m, c')
      → laws.is_open c ≡ true
      → (laws.queue c ≡ m ∷ laws.queue c')
        × (laws.capacity c' ≡ laws.capacity c)
        × (laws.is_open c' ≡ true)
