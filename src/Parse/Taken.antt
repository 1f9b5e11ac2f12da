-- ===== src/Parse/Taken.antt =====
-- What any reader of src/parse.rs does to the stream and the channel, whatever the items are: it takes
-- items from the front, and passes some of the responses among them on.
use async_imap.Base.{
  ℕ, zero, suc, ◌≡◌, refl, ap, true, inl, inr, Option, some, List, [], ◌∷◌, ◌++◌, append_assoc, ◌∙◌,
  Bool-cases, Option-cases,
}
use async_imap.Channel.{Channel, ChannelLaws}
use async_imap.Error.{IoResult, Outcome, io, ◌>>=◌}
use async_imap.Error.Calm.{IsCalm, AllCalm, IsCalm-ok, IsCalm-err, bind-IsCalm}
use async_imap.Parse.{Item, Feed, filter_sync, while_filtered, take_filtered}
use async_imap.Parse.Loop.{while_filtered_skip, while_filtered_take}
use async_imap.Parse.Streams.{take_filtered_skip, take_filtered_take}
use async_imap.Parse.Received.{
  message, Received, Received-nil, Received-append, handle_unilateral-Received,
}
use async_imap.Proto.{RequestId}
use async_imap.Types.Wire.{ResponseData, UnsolicitedResponse}

-- Messages of some of the responses among the items: each of at most one message, and in order.
pub data Offered : List Item → List UnsolicitedResponse → Type 0 where
  nil : Offered [] []
  passed :
      (r : ResponseData) {items : List Item} {ms : List UnsolicitedResponse}
      → Offered items ms
      → Offered (IoResult.ok r ∷ items) (message r ∷ ms)
  kept :
      (i : Item) {items : List Item} {ms : List UnsolicitedResponse}
      → Offered items ms
      → Offered (i ∷ items) ms

pub Offered-append :
    {items items' : List Item} {ms ms' : List UnsolicitedResponse}
    → Offered items ms
    → Offered items' ms'
    → Offered (items ++ items') (ms ++ ms')
Offered-append nil q = q
Offered-append (passed r p) q = passed r (Offered-append p q)
Offered-append (kept i p) q = kept i (Offered-append p q)

module _ {C : Type 0} {ch : Channel C} (laws : ChannelLaws ch) where
  -- From the items and the channel `c` to a feed: what was taken, and what was passed on of it.
  pub record Taken (items : List Item) (c : C) (feed : Feed C) : Type 0 where
    pub read : List Item
    pub ms : List UnsolicitedResponse
    pub items_are : items ≡ read ++ feed.incoming
    pub offered : Offered read ms
    pub received : Received laws c ms feed.chan

  pub Taken-nil :
      (items : List Item) (c : C)
      → laws.is_open c ≡ true
      → Taken items c (record { incoming = items; chan = c })
  Taken-nil items c o = record {
    read = [];
    ms = [];
    items_are = refl;
    offered = nil;
    received = Received-nil laws c o;
  }

  pub Taken-append :
      {items : List Item} {c : C} {f g : Feed C}
      → Taken items c f
      → Taken f.incoming f.chan g
      → Taken items c g
  Taken-append s t = record {
    read = s.read ++ t.read;
    ms = s.ms ++ t.ms;
    items_are = s.items_are ∙ rw t.items_are (rw append_assoc);
    offered = Offered-append s.offered t.offered;
    received = Received-append laws s.received t.received;
  }

  pub Taken-kept :
      (i : Item) {items : List Item} {c : C} {f : Feed C} → Taken items c f → Taken (i ∷ items) c f
  Taken-kept i t = record {
    read = i ∷ t.read;
    ms = t.ms;
    items_are = ap (◌∷◌ i) t.items_are;
    offered = kept i t.offered;
    received = t.received;
  }

  pub Taken-passed :
      (r : ResponseData) {items : List Item} {c c' : C} {f : Feed C}
      → Received laws c (message r ∷ []) c'
      → Taken items c' f
      → Taken (IoResult.ok r ∷ items) c f
  Taken-passed r got t = record {
    read = IoResult.ok r ∷ t.read;
    ms = message r ∷ t.ms;
    items_are = ap (◌∷◌ (IoResult.ok r)) t.items_are;
    offered = passed r t.offered;
    received = Received-append laws got t.received;
  }

  -- One item taken, and the reading over.
  pub Taken-one :
      (i : Item) (rest : List Item) (c : C)
      → laws.is_open c ≡ true
      → Taken (i ∷ rest) c (record { incoming = rest; chan = c })
  Taken-one i rest c o = Taken-kept i (Taken-nil rest c o)

  -- A reader's run: what it took, and that it did not panic.
  pub record Reads {A : Type 0} (items : List Item) (c : C) (r : Outcome A × Feed C) : Type 0 where
    pub taken : Taken items c r.1
    pub calm : IsCalm r.0

  pub Reads-kept :
      (i : Item) {A : Type 0} {items : List Item} {c : C} {r : Outcome A × Feed C}
      → Reads items c r
      → Reads (i ∷ items) c r
  Reads-kept i t = record { taken = Taken-kept i t.taken; calm = t.calm }

  pub Reads-passed :
      (r : ResponseData) {A : Type 0} {items : List Item} {c c' : C} {f : Outcome A × Feed C}
      → Received laws c (message r ∷ []) c'
      → Reads items c' f
      → Reads (IoResult.ok r ∷ items) c f
  Reads-passed r got t = record { taken = Taken-passed r got t.taken; calm = t.calm }

  pub Reads-nil :
      {A : Type 0} (o : Outcome A) (items : List Item) (c : C)
      → laws.is_open c ≡ true
      → IsCalm o
      → Reads items c (o, record { incoming = items; chan = c })
  Reads-nil o items c h k = record { taken = Taken-nil items c h; calm = k }

  -- One item taken, and the reading over.
  pub Reads-one :
      {A : Type 0} (o : Outcome A) (i : Item) (rest : List Item) (c : C)
      → laws.is_open c ≡ true
      → IsCalm o
      → Reads (i ∷ rest) c (o, record { incoming = rest; chan = c })
  Reads-one o i rest c h k = record { taken = Taken-one i rest c h; calm = k }

  -- What is made of the result afterwards.
  pub Reads-then :
      {A B : Type 0} (g : A → Outcome B) {items : List Item} {c : C} (r : Outcome A × Feed C)
      → ((a : A) → IsCalm (g a))
      → Reads items c r
      → Reads items c (r.0 >>= g, r.1)
  Reads-then g r k t = record { taken = t.taken; calm = bind-IsCalm r.0 g t.calm k }

  module _ {A B : Type 0} (select : ResponseData → Option B) (update : A → B → A)
      (tag : RequestId) where
    pub while_filtered-Reads :
        (items : List Item) (acc : A) (c : C)
        → laws.is_open c ≡ true
        → Reads items c (while_filtered ch select update tag acc items c)
    unfolding while_filtered
    while_filtered-Reads [] acc c o = Reads-nil (Outcome.ok acc) [] c o IsCalm-ok
    while_filtered-Reads (IoResult.err e ∷ rest) acc c o =
        Reads-one (Outcome.err (io e)) (IoResult.err e) rest c o IsCalm-err
    while_filtered-Reads (IoResult.ok r ∷ rest) acc c o =
        elim (Bool-cases (filter_sync (IoResult.ok r) tag)) [
          | inl on ↦ elim (Option-cases (select r)) [
            | inl skip ↦
                let (c', sent, got) = handle_unilateral-Received laws r c o in
                rw (while_filtered_skip laws select update tag r acc rest c on skip sent)
                  (Reads-passed r got (while_filtered-Reads rest acc c' got.open_is))
            | inr (b, taken) ↦
                rw (while_filtered_take laws select update tag r acc rest c on taken)
                  (Reads-kept (IoResult.ok r) (while_filtered-Reads rest (update acc b) c o))
          ]
          | inr off ↦
              rw (off, while_filtered)
                (Reads-one (Outcome.ok acc) (IoResult.ok r) rest c o IsCalm-ok)
        ]

  module _ {A : Type 0} (select : ResponseData → Option (Outcome A)) (tag : RequestId) where
    pub take_filtered-Taken :
        (asked : ℕ) (items : List Item) (c : C)
        → laws.is_open c ≡ true
        → Taken items c (take_filtered ch select tag asked items c).1
    unfolding take_filtered
    take_filtered-Taken zero items c o = Taken-nil items c o
    take_filtered-Taken (suc asked) [] c o = Taken-nil [] c o
    take_filtered-Taken (suc asked) (IoResult.err e ∷ rest) c o =
        Taken-kept (IoResult.err e) (take_filtered-Taken asked rest c o)
    take_filtered-Taken (suc asked) (IoResult.ok r ∷ rest) c o =
        elim (Bool-cases (filter_sync (IoResult.ok r) tag)) [
          | inl on ↦ elim (Option-cases (select r)) [
            | inl skip ↦
                let (c', sent, got) = handle_unilateral-Received laws r c o in
                rw (take_filtered_skip laws select tag r asked rest c on skip sent)
                  (Taken-passed r got (take_filtered-Taken (suc asked) rest c' got.open_is))
            | inr (a, taken) ↦
                rw (take_filtered_take laws select tag r asked rest c on taken)
                  (Taken-kept (IoResult.ok r) (take_filtered-Taken asked rest c o))
          ]
          | inr off ↦ rw (off, take_filtered) (Taken-one (IoResult.ok r) rest c o)
        ]

    -- Where no selected item is a panic, none of the items that the caller gets is one.
    pub take_filtered-AllCalm :
        ((r : ResponseData) (a : Outcome A) → select r ≡ some a → IsCalm a)
        → (asked : ℕ) (items : List Item) (c : C) → laws.is_open c ≡ true
        → AllCalm (take_filtered ch select tag asked items c).0
    unfolding take_filtered
    take_filtered-AllCalm k zero items c o = tt
    take_filtered-AllCalm k (suc asked) [] c o = tt
    take_filtered-AllCalm k (suc asked) (IoResult.err e ∷ rest) c o =
        (IsCalm-err, take_filtered-AllCalm k asked rest c o)
    take_filtered-AllCalm k (suc asked) (IoResult.ok r ∷ rest) c o =
        elim (Bool-cases (filter_sync (IoResult.ok r) tag)) [
          | inl on ↦ elim (Option-cases (select r)) [
            | inl skip ↦
                let (c', sent, got) = handle_unilateral-Received laws r c o in
                rw (take_filtered_skip laws select tag r asked rest c on skip sent)
                  (take_filtered-AllCalm k (suc asked) rest c' got.open_is)
            | inr (a, taken) ↦
                rw (take_filtered_take laws select tag r asked rest c on taken)
                  (k r a taken, take_filtered-AllCalm k asked rest c o)
          ]
          | inr off ↦ rw (off, take_filtered) tt
        ]
