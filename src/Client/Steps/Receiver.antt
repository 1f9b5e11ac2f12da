-- ===== src/Client/Steps/Receiver.antt =====
-- Work on a session of src/client.rs whose owner takes messages from `unsolicited_responses` between the
-- calls.
use async_imap.Base.{
  ℕ, zero, suc, ◌≡◌, refl, sym, ap, ◌∙◌, true, some, List, [], ◌∷◌, ◌++◌, append_assoc, append-nil,
  take,
}
use async_imap.Channel.{Channel, ChannelLaws, Receiver, ReceiverLaws}
use async_imap.Client.Session.{Session}
use async_imap.Client.Steps.{Ended, Phase, ready, idling, session_of, Step}
use async_imap.Client.Steps.Laws.{Step-Evolves}
use async_imap.Parse.{Item}
use async_imap.Parse.Received.{room}
use async_imap.Parse.Taken.{Offered, nil, passed, kept, Offered-append}
use async_imap.Types.Wire.{UnsolicitedResponse}

-- The same phase with another state of the channel.
abbrev pub with_channel : {C : Type 0} → Phase C → C → Phase C
with_channel (ready s) c = ready (record s { unsolicited = c })
with_channel (idling h) c = idling (record h { session = record h.session { unsolicited = c } })

module _ {C : Type 0} (ch : Channel C) (rx : Receiver C) where
  -- Calls, and messages received between them, which are listed in order.
  pub data Run (p : Phase C) : List UnsolicitedResponse → Phase C → Type 0 where
    here : Run p [] p
    call :
        {got : List UnsolicitedResponse} {q r : Phase C} {e : Ended}
        → Run p got q
        → Step ch q e r
        → Run p got r
    receive :
        {got : List UnsolicitedResponse} {q : Phase C} (m : UnsolicitedResponse) (c : C)
        → Run p got q
        → rx.recv (session_of q).unsolicited ≡ some (m, c)
        → Run p (got ++ m ∷ []) (with_channel q c)

-- The first ones of the messages are messages of the same items.
Offered-take :
    (n : ℕ) {items : List Item} {ms : List UnsolicitedResponse}
    → Offered items ms
    → Offered items (take n ms)
Offered-take zero nil = nil
Offered-take (suc n) nil = nil
Offered-take zero (passed r p) = kept _ (Offered-take zero p)
Offered-take (suc n) (passed r p) = passed r (Offered-take n p)
Offered-take n (kept i p) = kept i (Offered-take n p)

module _ {C : Type 0} {ch : Channel C} (laws : ChannelLaws ch) {rx : Receiver C}
    (receiving : ReceiverLaws laws rx) where
  -- From one session to the other the items `read` were taken from the stream, the messages `accepted`
  -- of some of them went into the channel, and `got` came out of it.
  pub record InOrder (s : Session C) (got : List UnsolicitedResponse) (s' : Session C)
      : Type 0 where
    pub read : List Item
    pub accepted : List UnsolicitedResponse
    pub incoming_is : s.conn.stream.incoming ≡ read ++ s'.conn.stream.incoming
    pub offered : Offered read accepted
    pub queue_is : laws.queue s.unsolicited ++ accepted ≡ got ++ laws.queue s'.unsolicited
    pub capacity_is : laws.capacity s'.unsolicited ≡ laws.capacity s.unsolicited
    pub open_is : laws.is_open s'.unsolicited ≡ true

  one_received :
      (s : Session C) (got : List UnsolicitedResponse) (t : Session C) (m : UnsolicitedResponse)
      (c : C)
      → InOrder s got t
      → rx.recv t.unsolicited ≡ some (m, c)
      → InOrder s (got ++ m ∷ []) (record t { unsolicited = c })
  one_received s got t m c i h =
      let (q, k, o) = receiving.recv_lem t.unsolicited c m h i.open_is in
      record {
        read = i.read;
        accepted = i.accepted;
        incoming_is = i.incoming_is;
        offered = i.offered;
        queue_is =
            i.queue_is ∙ ap (λ l. got ++ l) q ∙ sym (append_assoc got (m ∷ []) (laws.queue c));
        capacity_is = k ∙ i.capacity_is;
        open_is = o;
      }

  after_receiving :
      (s : Session C) (got : List UnsolicitedResponse) (q : Phase C) (m : UnsolicitedResponse)
      (c : C)
      → InOrder s got (session_of q)
      → rx.recv (session_of q).unsolicited ≡ some (m, c)
      → InOrder s (got ++ m ∷ []) (session_of (with_channel q c))
  after_receiving s got (ready t) m c i h = one_received s got t m c i h
  after_receiving s got (idling t) m c i h = one_received s got t.session m c i h

  -- On a session with an open channel, after any calls, idling included, between which its owner takes
  -- messages from the channel: what was in the channel and what has been accepted since is exactly what
  -- was received, in order, and then what is in the channel still; the accepted messages are those of
  -- some of the responses read, each at most once and in order; the items read are the first ones of
  -- the stream; and the channel is open with its capacity.
  pub Run-InOrder :
      {p : Phase C} {got : List UnsolicitedResponse} {q : Phase C}
      → Run ch rx p got q
      → laws.is_open (session_of p).unsolicited ≡ true
      → InOrder (session_of p) got (session_of q)
  Run-InOrder {p = p} here o = record {
    read = [];
    accepted = [];
    incoming_is = refl;
    offered = nil;
    queue_is = append-nil (laws.queue (session_of p).unsolicited);
    capacity_is = refl;
    open_is = o;
  }
  Run-InOrder {p = p} (call {got} {q} r st) o =
      let i = Run-InOrder r o in
      let e = Step-Evolves laws st i.open_is in
      let fits = take (room laws (session_of q).unsolicited) e.ms in
      record {
        read = i.read ++ e.read;
        accepted = i.accepted ++ fits;
        incoming_is = i.incoming_is ∙ rw e.incoming_is (rw append_assoc);
        offered =
            Offered-append i.offered
              (Offered-take (room laws (session_of q).unsolicited) e.offered);
        queue_is =
            sym (append_assoc (laws.queue (session_of p).unsolicited) i.accepted fits)
            ∙ ap (λ l. l ++ fits) i.queue_is
            ∙ append_assoc got (laws.queue (session_of q).unsolicited) fits
            ∙ ap (λ l. got ++ l) (sym e.received.queue_is);
        capacity_is = e.received.capacity_is ∙ i.capacity_is;
        open_is = e.received.open_is;
      }
  Run-InOrder {p = p} (receive {got} {q} m c r h) o =
      after_receiving (session_of p) got q m c (Run-InOrder r o) h
