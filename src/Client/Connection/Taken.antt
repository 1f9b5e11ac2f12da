-- ===== src/Client/Connection/Taken.antt =====
-- What `check_done_ok` of src/client.rs does to the stream and the channel, whatever the items are.
use async_imap.Base.{
  ◌≡◌, refl, arith, ap, true, inl, inr, Option, some, List, [], ◌∷◌, Option-cases,
}
use async_imap.Channel.{Channel, ChannelLaws}
use async_imap.Client.Connection.{
  Connection, Stream, read_response, next_in, handle_optional, verdict, check_status_ok, settle,
  check_done_ok_from, check_done_ok,
}
use async_imap.Client.Connection.Commands.{awaiting}
use async_imap.Error.{Error, IoResult, Outcome, err}
use async_imap.Error.Calm.{IsCalm, IsCalm-err}
use async_imap.Parse.Mailbox.{check_status}
use async_imap.Parse.{Item, Feed}
use async_imap.Parse.Received.{handle_unilateral-Received}
use async_imap.Parse.Taken.{Taken, Taken-nil, Taken-one, Taken-passed}
use async_imap.Proto.{RequestId, Response}
use async_imap.Types.Wire.{ResponseData}

-- No verdict is a panic.
verdict-IsCalm :
    (id : RequestId) (x : Response) (v : Outcome (Unit {0})) → verdict id x ≡ some v → IsCalm v
unfolding verdict check_status_ok check_status
verdict-IsCalm id (Response.done tag status code information) v h = record {
  no_panic = ground arith;
}
verdict-IsCalm id _ v h = absurd (ground arith)

module _ {C : Type 0} {ch : Channel C} (laws : ChannelLaws ch) where
  -- The sender that was given comes back, with what was sent through it.
  pub record HeldTaken (items : List Item) (c : C) (r : Outcome (Unit {0}) × Feed (Option C))
      : Type 0 where
    pub sender : C
    pub sender_is : r.1.chan ≡ some sender
    pub taken : Taken laws items c (record { incoming = r.1.incoming; chan = sender })
    pub calm : IsCalm r.0

  HeldTaken-one :
      (v : Outcome (Unit {0})) (i : Item) (rest : List Item) (c : C)
      → IsCalm v
      → laws.is_open c ≡ true
      → HeldTaken (i ∷ rest) c (v, record { incoming = rest; chan = some c })
  HeldTaken-one v i rest c k o = record {
    sender = c;
    sender_is = refl;
    taken = Taken-one laws i rest c o;
    calm = k;
  }

  HeldTaken-lost :
      (c : C)
      → laws.is_open c ≡ true
      → HeldTaken [] c (err Error.connection_lost, record { incoming = []; chan = some c })
  HeldTaken-lost c o = record {
    sender = c;
    sender_is = refl;
    taken = Taken-nil laws [] c o;
    calm = IsCalm-err;
  }

  settle-HeldTaken :
      (id : RequestId) (r : ResponseData) (items : List Item) (c : C)
      (next : Option C → Outcome (Unit {0}) × Feed (Option C))
      → laws.is_open c ≡ true
      → ((c' : C) → laws.is_open c' ≡ true → HeldTaken items c' (next (some c')))
      → HeldTaken (IoResult.ok r ∷ items) c (settle ch id r items (some c) next)
  unfolding settle handle_optional
  settle-HeldTaken id r items c next o go = elim (Option-cases (verdict id r.parsed)) [
    | inl on ↦
        let (c', sent, got) = handle_unilateral-Received laws r c o in
        let later = go c' got.open_is in
        rw (on, settle, sent, handle_optional)
          (record {
            sender = later.sender;
            sender_is = later.sender_is;
            taken = Taken-passed laws r got later.taken;
            calm = later.calm;
          })
    | inr (v, over) ↦
        rw (over, settle)
          (HeldTaken-one v (IoResult.ok r) items c (verdict-IsCalm id r.parsed v over) o)
  ]

  from-HeldTaken :
      (id : RequestId) (r : ResponseData) (items : List Item) (c : C)
      → laws.is_open c ≡ true
      → HeldTaken (IoResult.ok r ∷ items) c (check_done_ok_from ch id r items (some c))
  unfolding check_done_ok_from
  from-HeldTaken id r [] c o = settle-HeldTaken id r [] c _ o HeldTaken-lost
  from-HeldTaken id r (IoResult.err e ∷ rest) c o =
      settle-HeldTaken id r (IoResult.err e ∷ rest) c _ o
        (λ c' o'. HeldTaken-one _ (IoResult.err e) rest c' IsCalm-err o')
  from-HeldTaken id r (IoResult.ok x ∷ rest) c o =
      settle-HeldTaken id r (IoResult.ok x ∷ rest) c _ o (from-HeldTaken id x rest)

  pub check_done_ok-HeldTaken :
      (id : RequestId) (items : List Item) (c : C)
      → laws.is_open c ≡ true
      → HeldTaken items c (check_done_ok ch id items (some c))
  unfolding check_done_ok
  check_done_ok-HeldTaken id [] c o = HeldTaken-lost c o
  check_done_ok-HeldTaken id (IoResult.err e ∷ rest) c o =
      HeldTaken-one _ (IoResult.err e) rest c IsCalm-err o
  check_done_ok-HeldTaken id (IoResult.ok r ∷ rest) c o = from-HeldTaken id r rest c o

  next_in-Taken :
      (items : List Item) (c : C) (s : Stream)
      → s.incoming ≡ items
      → laws.is_open c ≡ true
      → Taken laws items c (record { incoming = (next_in items s).1.incoming; chan = c })
        × ((next_in items s).1 ≡ record s { incoming = (next_in items s).1.incoming })
  unfolding next_in
  next_in-Taken [] c s e o = (rw e (Taken-nil laws [] c o), refl)
  next_in-Taken (i ∷ rest) c s e o = (Taken-one laws i rest c o, refl)

  -- `read_response` takes the next item, and leaves all else.
  pub read_response-Taken :
      (conn : Connection) (c : C)
      → laws.is_open c ≡ true
      → Taken laws conn.stream.incoming c
          (record { incoming = (read_response conn).1.stream.incoming; chan = c })
        × ((read_response conn).1 ≡ awaiting (read_response conn).1.stream.incoming conn)
  unfolding read_response
  read_response-Taken conn c o =
      let (t, e) = next_in-Taken conn.stream.incoming c conn.stream refl o in
      (t, ap (λ (s : Stream). record conn { stream = s }) e)
