-- ===== src/Parse/Received.antt =====
-- `handle_unilateral` of src/parse.rs and what it does to the channel: which responses a reader passes
-- on, and which of them find room.
use async_imap.Base.{
  ℕ, suc, ◌-◌, ◌≤◌, ◌≡◌, refl, sym, ap, ◌∙◌, true, inl, inr, Option, none, some, List, [], ◌∷◌,
  ◌++◌, append-nil, append_assoc, arith, length, take, length-append, length-take, take-append,
  filter_map, cons_some, Bool-cases, leb, take_zero,
}
use async_imap.Channel.{Channel, ChannelLaws}
use async_imap.Types.Wire.{ResponseData, UnsolicitedResponse}
use async_imap.Parse.{Item, Feed, message_of, handle_unilateral}

abbrev pub message : ResponseData → UnsolicitedResponse
message r = message_of r r.parsed

-- The messages of the responses that a reader does not select.
abbrev pub leftover {ℓ} :
    {B : Type ℓ} → (ResponseData → Option B) → ResponseData → Option UnsolicitedResponse
leftover select r = elim (select r) [ some b ↦ none | none ↦ some (message r) ]

abbrev pub leftovers {ℓ} :
    {B : Type ℓ} → (ResponseData → Option B) → List ResponseData → List UnsolicitedResponse
leftovers select rs = filter_map (leftover select) rs

pub leftover_skip {ℓ} :
    {B : Type ℓ} (select : ResponseData → Option B) (r : ResponseData)
    → select r ≡ none
    → leftover select r ≡ some (message r)
leftover_skip select r h = ground arith

pub leftover_take {ℓ} :
    {B : Type ℓ} (select : ResponseData → Option B) (r : ResponseData) {b : B}
    → select r ≡ some b
    → leftover select r ≡ none
leftover_take select r h = ground arith

module _ {C : Type 0} {ch : Channel C} (laws : ChannelLaws ch) where
  open laws use {queue, capacity, is_open, is_full_lem, send_open}

  -- How many more messages fit into the channel.
  abbrev pub room : C → ℕ
  room c = capacity c - length (queue c)

  -- From channel `c` to `c'` exactly those of the messages are sent, in order, that fit.
  pub record Received (c : C) (ms : List UnsolicitedResponse) (c' : C) : Type 0 where
    pub queue_is : queue c' ≡ queue c ++ take (room c) ms
    pub capacity_is : capacity c' ≡ capacity c
    pub open_is : is_open c' ≡ true

  -- No more messages than fit are held.
  pub Received-bounded :
      {c c' : C} {ms : List UnsolicitedResponse}
      → Received c ms c'
      → length (queue c) ≤ capacity c
      → length (queue c') ≤ capacity c'
  Received-bounded {c} {ms = ms} r h = omega (
    arith,
    r.capacity_is,
    ap length r.queue_is,
    length-append (queue c) (take (room c) ms),
    length-take (room c) ms,
  )

  pub Received-nil : (c : C) → is_open c ≡ true → Received c [] c
  Received-nil c o = record {
    queue_is = sym (append-nil (queue c)) ∙ ap (λ t. queue c ++ t) (sym (take_zero (room c)));
    capacity_is = refl;
    open_is = o;
  }

  pub Received-append :
      {c c' c'' : C} {xs ys : List UnsolicitedResponse}
      → Received c xs c'
      → Received c' ys c''
      → Received c (xs ++ ys) c''
  Received-append {c} {c'} {c''} {xs} {ys} f g = record {
    queue_is =
        g.queue_is
        ∙ rw (less_room, f.queue_is, take-append (room c) xs ys)
            (append_assoc (queue c) (take (room c) xs) (take (room c - length xs) ys));
    capacity_is = g.capacity_is ∙ f.capacity_is;
    open_is = g.open_is;
  }
    where
      less_room : room c' ≡ room c - length xs
      less_room = omega (
        arith,
        f.capacity_is,
        ap length f.queue_is,
        length-append (queue c) (take (room c) xs),
        length-take (room c) xs,
      )

  pub Received-cons :
      {c c' c'' : C} (o : Option UnsolicitedResponse) {ms : List UnsolicitedResponse}
      → Received c (cons_some o []) c'
      → Received c' ms c''
      → Received c (cons_some o ms) c''
  Received-cons none f g = Received-append f g
  Received-cons (some m) f g = Received-append f g

  -- A response goes to the channel if there is room in it, and is dropped if it is full. An open
  -- channel makes no panic.
  pub handle_unilateral-Received :
      (res : ResponseData) (c : C)
      → is_open c ≡ true
      → (c' : C) × (handle_unilateral ch res c ≡ some c') × Received c (message res ∷ []) c'
  unfolding handle_unilateral
  handle_unilateral-Received res c o = elim (Bool-cases (leb (capacity c) (length (queue c)))) [
    | inl full ↦ (
      c,
      rw (is_full_lem c ∙ full),
      record {
        queue_is =
            let none_fit : room c ≡ 0 = ground arith in rw none_fit (sym (append-nil (queue c)));
        capacity_is = refl;
        open_is = o;
      },
    )
    | inr space ↦
        let (c', s, q, k, o') = send_open (message res) c o (ground arith) in
        (
          c',
          rw (is_full_lem c ∙ space) s,
          record {
            queue_is =
                let one_fits : room c ≡ suc (room c - 1) = ground arith in
                rw (one_fits, take_zero) q;
            capacity_is = k;
            open_is = o';
          },
        )
  ]

  -- The run `r` of a reader from channel `c`: its result, the items that it left, and the messages
  -- that it offered to the channel.
  pub record Ran {ℓ} {A : Type ℓ} (c : C) (r : A × Feed C) (result : A) (rest : List Item)
      (ms : List UnsolicitedResponse) : Type ℓ where
    pub result_is : r.0 ≡ result
    pub rest_is : r.1.incoming ≡ rest
    pub received : Received c ms r.1.chan
