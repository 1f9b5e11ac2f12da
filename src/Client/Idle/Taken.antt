-- ===== src/Client/Idle/Taken.antt =====
-- What the loops of src/extensions/idle.rs do to the stream and the channel, whatever the items are.
use async_imap.Base.{◌≡◌, ◌⊎◌, refl, true, inl, inr, List, [], ◌∷◌, Option-cases}
use async_imap.Channel.{Channel, ChannelLaws}
use async_imap.Client.Idle.{
  Event, elapsed, interrupted, arrived, Heard, keepalive, tagged, news, hear, wait_loop,
  init_verdict, init_loop,
}
use async_imap.Error.{IoResult}
use async_imap.Parse.{Item}
use async_imap.Parse.Received.{handle_unilateral-Received}
use async_imap.Parse.Taken.{Taken, Taken-nil, Taken-one, Taken-kept, Taken-passed}
use async_imap.Proto.{RequestId}

Heard-cases : (h : Heard) → (h ≡ keepalive) ⊎ (h ≡ tagged) ⊎ (h ≡ news)
Heard-cases keepalive = inl refl
Heard-cases tagged = inr (inl refl)
Heard-cases news = inr (inr refl)

module _ {C : Type 0} {ch : Channel C} (laws : ChannelLaws ch) where
  pub init_loop-Taken :
      (id : RequestId) (items : List Item) (c : C)
      → laws.is_open c ≡ true
      → Taken laws items c (init_loop ch id items c).1
  unfolding init_loop
  init_loop-Taken id [] c o = Taken-nil laws [] c o
  init_loop-Taken id (IoResult.err e ∷ rest) c o = Taken-one laws (IoResult.err e) rest c o
  init_loop-Taken id (IoResult.ok r ∷ rest) c o =
      elim (Option-cases (init_verdict ch id r.parsed)) [
        | inl on ↦
            let (c', sent, got) = handle_unilateral-Received laws r c o in
            rw (on, init_loop, sent)
              (Taken-passed laws r got (init_loop-Taken id rest c' got.open_is))
        | inr (v, over) ↦ rw (over, init_loop) (Taken-one laws (IoResult.ok r) rest c o)
      ]

  pub wait_loop-Taken :
      (events : List Event) (items : List Item) (c : C)
      → laws.is_open c ≡ true
      → Taken laws items c (wait_loop ch events items c).1
  unfolding wait_loop
  wait_loop-Taken [] items c o = Taken-nil laws items c o
  wait_loop-Taken (elapsed ∷ events) items c o = Taken-nil laws items c o
  wait_loop-Taken (interrupted ∷ events) items c o = Taken-nil laws items c o
  wait_loop-Taken (arrived ∷ events) [] c o = Taken-nil laws [] c o
  wait_loop-Taken (arrived ∷ events) (IoResult.err e ∷ rest) c o =
      Taken-one laws (IoResult.err e) rest c o
  wait_loop-Taken (arrived ∷ events) (IoResult.ok r ∷ rest) c o =
      elim (Heard-cases (hear r.parsed)) [
        | inl alive ↦
            rw (alive, wait_loop)
              (Taken-kept laws (IoResult.ok r) (wait_loop-Taken events rest c o))
        | inr (inl done) ↦
            let (c', sent, got) = handle_unilateral-Received laws r c o in
            rw (done, wait_loop, sent)
              (Taken-passed laws r got (wait_loop-Taken events rest c' got.open_is))
        | inr (inr new) ↦ rw (new, wait_loop) (Taken-one laws (IoResult.ok r) rest c o)
      ]
