-- ===== src/Client/Steps/Evolves.antt =====
-- How a session of src/client.rs may change over any stretch of work.
use async_imap.Base.{
  ℕ, ◌+◌, ◌≤◌, ◌≡◌, refl, sym, ap, ◌∙◌, true, List, [], ◌++◌, append_assoc, append-nil, filter_map,
  filter_map-append, arith,
}
use async_imap.Channel.{Channel, ChannelLaws}
use async_imap.Client.Connection.{Sent, Connection}
use async_imap.Client.Connection.Writes.{tag_in, tags, Writes}
use async_imap.Client.Session.{Session}
use async_imap.Parse.{Item, Feed}
use async_imap.Parse.Received.{Received, Received-nil, Received-append}
use async_imap.Parse.Taken.{Taken, Offered, nil, Offered-append}
use async_imap.Types.IdGenerator.Drawn.{Drawn, done, Drawn-append}
use async_imap.Types.Wire.{UnsolicitedResponse}

module _ {C : Type 0} {ch : Channel C} (laws : ChannelLaws ch) where
  -- From one session to the other: items were taken from the front of the stream, messages of some of
  -- them were offered to the channel in order, and things were written behind what was there, with
  -- tags drawn one after the other, `n` at most.
  pub record Evolves (n : ℕ) (s s' : Session C) : Type 0 where
    pub read : List Item
    pub ms : List UnsolicitedResponse
    pub wrote : List Sent
    pub draws : ℕ
    pub draws_le : draws ≤ n
    pub incoming_is : s.conn.stream.incoming ≡ read ++ s'.conn.stream.incoming
    pub offered : Offered read ms
    pub received : Received laws s.unsolicited ms s'.unsolicited
    pub sent_is : s'.conn.stream.sent ≡ s.conn.stream.sent ++ wrote
    pub drawn : Drawn draws s.conn.request_ids (tags wrote) s'.conn.request_ids

  pub Evolves-refl : (s : Session C) → laws.is_open s.unsolicited ≡ true → Evolves 0 s s
  unfolding filter_map
  Evolves-refl s o = record {
    read = [];
    ms = [];
    wrote = [];
    draws = 0;
    draws_le = omega arith;
    incoming_is = refl;
    offered = nil;
    received = Received-nil laws s.unsolicited o;
    sent_is = sym (append-nil s.conn.stream.sent);
    drawn = done s.conn.request_ids;
  }

  pub Evolves-append :
      {n m : ℕ} {s t u : Session C} → Evolves n s t → Evolves m t u → Evolves (n + m) s u
  Evolves-append {s = s} e f =
      let (k, k_is, d) = Drawn-append e.drawn f.drawn in
      record {
        read = e.read ++ f.read;
        ms = e.ms ++ f.ms;
        wrote = e.wrote ++ f.wrote;
        draws = k;
        draws_le = omega (arith, k_is, e.draws_le, f.draws_le);
        incoming_is = e.incoming_is ∙ rw f.incoming_is (rw append_assoc);
        offered = Offered-append e.offered f.offered;
        received = Received-append laws e.received f.received;
        sent_is =
            f.sent_is
            ∙ ap (λ l. l ++ f.wrote) e.sent_is
            ∙ append_assoc s.conn.stream.sent e.wrote f.wrote;
        drawn = rw (filter_map-append tag_in e.wrote f.wrote) d;
      }

  pub Evolves-le : {n m : ℕ} {s t : Session C} → n ≤ m → Evolves n s t → Evolves m s t
  Evolves-le h e = record {
    read = e.read;
    ms = e.ms;
    wrote = e.wrote;
    draws = e.draws;
    draws_le = omega (arith, e.draws_le);
    incoming_is = e.incoming_is;
    offered = e.offered;
    received = e.received;
    sent_is = e.sent_is;
    drawn = e.drawn;
  }

  -- Work without a tag draws none.
  pub Evolves-append_untagged :
      {n : ℕ} {s t u : Session C} → Evolves n s t → Evolves 0 t u → Evolves n s u
  Evolves-append_untagged {n} e f =
      Evolves-le {n = n + 0} (omega arith) (Evolves-append {n = n} {m = 0} e f)

  -- Work on the connection leaves the channel alone.
  pub Writes-Evolves :
      {n : ℕ} (s : Session C) (conn : Connection)
      → laws.is_open s.unsolicited ≡ true
      → Writes n s.conn conn
      → Evolves n s (record s { conn = conn })
  Writes-Evolves s conn o w = record {
    read = [];
    ms = [];
    wrote = w.wrote;
    draws = w.draws;
    draws_le = w.draws_le;
    incoming_is = sym w.incoming_is;
    offered = nil;
    received = Received-nil laws s.unsolicited o;
    sent_is = w.sent_is;
    drawn = w.drawn;
  }

  -- Reading writes nothing.
  pub Taken-Evolves :
      (s : Session C) (feed : Feed C)
      → Taken laws s.conn.stream.incoming s.unsolicited feed
      → Evolves 0 s (record {
        conn = record s.conn { stream = record s.conn.stream { incoming = feed.incoming } };
        unsolicited = feed.chan;
      })
  unfolding filter_map
  Taken-Evolves s feed t = record {
    read = t.read;
    ms = t.ms;
    wrote = [];
    draws = 0;
    draws_le = omega arith;
    incoming_is = t.items_are;
    offered = t.offered;
    received = t.received;
    sent_is = sym (append-nil s.conn.stream.sent);
    drawn = done s.conn.request_ids;
  }
