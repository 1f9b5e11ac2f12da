-- ===== src/Client/Steps/Keeps.antt =====
-- The ways in which src/client.rs builds a method of `Session`, each with how it may change a session:
-- what is written, what is read, and what comes after an earlier call.
use async_imap.Base.{ℕ, ◌+◌, ◌≡◌, refl, true, none, some, List, arith}
use async_imap.Channel.{Channel, ChannelLaws}
use async_imap.Client.Connection
use async_imap.Client.Connection.Taken.{check_done_ok-HeldTaken, read_response-Taken}
use async_imap.Proto.{RequestId}
use async_imap.Base.Text.{Bytes}
use async_imap.Client.Connection.{on_items, check_done_ok, Sent, Connection, put}
use async_imap.Client.Exec.{Exec, ◌>>=◌, continue, lift}
use async_imap.Client.Session.{
  sender_or, on_held, run_command, run_command_untagged, run_command_and_check_ok, read_response,
  Session, on_conn, reading, streaming,
}
use async_imap.Client.Connection.Writes.{
  put-IsCalm, run_command-IsCalm, put-Writes, run_command-Writes, tag_in,
}
use async_imap.Client.Steps.Evolves.{
  Evolves, Evolves-refl, Evolves-append, Evolves-append_untagged, Evolves-le, Writes-Evolves,
  Taken-Evolves,
}
use async_imap.Error.{Outcome, ok, err, panic}
use async_imap.Error.Calm.{IsCalm, IsCalm-ok, IsCalm-err}
use async_imap.Parse.{Item, Feed}
use async_imap.Parse.Taken.{Taken, Reads}

module _ {C : Type 0} {ch : Channel C} (laws : ChannelLaws ch) where
  -- A method that, on a session with an open channel, draws at most `n` tags and does not panic.
  pub record Keeps {A : Type 0} (n : ℕ) (m : Exec (Session C) A) : Type 0 where
    pub at : (s : Session C) → laws.is_open s.unsolicited ≡ true → Evolves laws n s (m s).1
    pub calm : (s : Session C) → laws.is_open s.unsolicited ≡ true → IsCalm (m s).0

  module _ {A : Type 0} where
    pub Keeps-lift : (o : Outcome A) → IsCalm o → Keeps 0 (lift o)
    Keeps-lift o k = record { at = λ s h. Evolves-refl laws s h; calm = λ s h. k }

    pub Keeps-reading :
        (f : List Item → C → Outcome A × Feed C)
        → ((items : List Item) (c : C) → laws.is_open c ≡ true → Reads laws items c (f items c))
        → Keeps 0 (reading f)
    Keeps-reading f t = record {
      at = λ s h.
          Taken-Evolves laws s (f s.conn.stream.incoming s.unsolicited).1
            (t s.conn.stream.incoming s.unsolicited h).taken;
      calm = λ s h. (t s.conn.stream.incoming s.unsolicited h).calm;
    }

    pub Keeps-streaming :
        (f : List Item → C → List (Outcome A) × Feed C)
        → ((items : List Item) (c : C) → laws.is_open c ≡ true → Taken laws items c (f items c).1)
        → Keeps 0 (streaming f)
    Keeps-streaming f t = record {
      at = λ s h.
          Taken-Evolves laws s (f s.conn.stream.incoming s.unsolicited).1
            (t s.conn.stream.incoming s.unsolicited h);
      calm = λ s h. IsCalm-ok;
    }

  module _ {A B : Type 0} where
    Keeps-continue :
        {n m : ℕ} (f : A → Exec (Session C) B) {s s' : Session C} (o : Outcome A)
        → Evolves laws n s s'
        → ((a : A) → Keeps m (f a))
        → Evolves laws (n + m) s (continue f o s').1
    Keeps-continue f (ok a) e k = Evolves-append laws e ((k a).at _ e.received.open_is)
    Keeps-continue f (err x) e k = Evolves-le laws (omega arith) e
    Keeps-continue f panic e k = Evolves-le laws (omega arith) e

    continue-IsCalm :
        {n m : ℕ} (f : A → Exec (Session C) B) {s s' : Session C} (o : Outcome A)
        → Evolves laws n s s'
        → IsCalm o
        → ((a : A) → Keeps m (f a))
        → IsCalm (continue f o s').0
    continue-IsCalm f (ok a) e h k = (k a).calm _ e.received.open_is
    continue-IsCalm f (err x) e h k = IsCalm-err
    continue-IsCalm f panic e h k = absurd (h.no_panic refl)

    -- A method that reads, or writes without a tag, after any other one; and one that comes after a
    -- test or after a write without a tag.
    pub Keeps-bind :
        {n : ℕ} (m : Exec (Session C) A) (f : A → Exec (Session C) B)
        → Keeps n m
        → ((a : A) → Keeps 0 (f a))
        → Keeps n (m >>= f)
    Keeps-bind {n} m f km kf = record {
      at = λ s h. Evolves-le laws (omega arith) (Keeps-continue {n = n} f (m s).0 (km.at s h) kf);
      calm = λ s h. continue-IsCalm f (m s).0 (km.at s h) (km.calm s h) kf;
    }

    pub Keeps-before :
        {n : ℕ} (m : Exec (Session C) A) (f : A → Exec (Session C) B)
        → Keeps 0 m
        → ((a : A) → Keeps n (f a))
        → Keeps n (m >>= f)
    Keeps-before {n} m f km kf = record {
      at = λ s h. Evolves-le laws (omega arith) (Keeps-continue {m = n} f (m s).0 (km.at s h) kf);
      calm = λ s h. continue-IsCalm f (m s).0 (km.at s h) (km.calm s h) kf;
    }

  pub Keeps-put : (what : Sent) → tag_in what ≡ none → Keeps 0 (on_conn (put what))
  Keeps-put what t = record {
    at = λ s h. Writes-Evolves laws s (put what s.conn).1 h (put-Writes what s.conn t);
    calm = λ s h. put-IsCalm what s.conn;
  }

  module _ {A B : Type 0} where
    conn_continue :
        {n : ℕ} (f : A → Exec Connection B) (s : Session C) (o : Outcome A) (conn : Connection)
        → Evolves laws n s (record s { conn = conn })
        → ((a : A) → Keeps 0 (on_conn (f a)))
        → Evolves laws n s (record s { conn = (continue f o conn).1 })
    conn_continue f s (ok a) conn e k =
        Evolves-append_untagged laws e ((k a).at (record s { conn = conn }) e.received.open_is)
    conn_continue f s (err x) conn e k = e
    conn_continue f s panic conn e k = e

    conn_continue-IsCalm :
        {n : ℕ} (f : A → Exec Connection B) (s : Session C) (o : Outcome A) (conn : Connection)
        → Evolves laws n s (record s { conn = conn })
        → IsCalm o
        → ((a : A) → Keeps 0 (on_conn (f a)))
        → IsCalm (continue f o conn).0
    conn_continue-IsCalm f s (ok a) conn e h k =
        (k a).calm (record s { conn = conn }) e.received.open_is
    conn_continue-IsCalm f s (err x) conn e h k = IsCalm-err
    conn_continue-IsCalm f s panic conn e h k = absurd (h.no_panic refl)

    Keeps-conn_bind :
        {n : ℕ} (m : Exec Connection A) (f : A → Exec Connection B)
        → Keeps n (on_conn m)
        → ((a : A) → Keeps 0 (on_conn (f a)))
        → Keeps n (on_conn (m >>= f))
    Keeps-conn_bind m f km kf = record {
      at = λ s h. conn_continue f s (m s.conn).0 (m s.conn).1 (km.at s h) kf;
      calm = λ s h. conn_continue-IsCalm f s (m s.conn).0 (m s.conn).1 (km.at s h) (km.calm s h) kf;
    }

  pub Keeps-run_command_untagged : (command : Bytes) → Keeps 0 (run_command_untagged command)
  unfolding run_command_untagged Connection.run_command_untagged
  Keeps-run_command_untagged command =
      Keeps-conn_bind _ _ (Keeps-put _ refl) (λ _. Keeps-put Sent.flushed refl)

  pub Keeps-run_command : (command : Bytes) → Keeps 1 (run_command command)
  unfolding run_command
  Keeps-run_command command = record {
    at = λ s h. Writes-Evolves laws s _ h (run_command-Writes command s.conn);
    calm = λ s h. run_command-IsCalm command s.conn;
  }

  pub Keeps-read_response : Keeps 0 read_response
  unfolding read_response Connection.read_response
  Keeps-read_response = record {
    at = λ s h.
        let (t, e) = read_response-Taken laws s.conn s.unsolicited h in
        rw e (Taken-Evolves laws s _ t);
    calm = λ s h. IsCalm-ok;
  }

  -- The sender that a call on the connection was given comes back with it.
  held-Evolves :
      (id : RequestId) {n : ℕ} (s : Session C) (conn : Connection)
      → Evolves laws n s (record s { conn = conn })
      → Evolves laws n s
          (on_held ch (on_items ch (check_done_ok ch id)) (record s { conn = conn })).1
  held-Evolves id s conn e =
      let t =
        check_done_ok-HeldTaken laws id conn.stream.incoming s.unsolicited e.received.open_is in
      rw (t.sender_is, sender_or)
        (Evolves-append_untagged laws e (Taken-Evolves laws (record s { conn = conn }) _ t.taken))

  pub Keeps-check_done_ok :
      (id : RequestId) → Keeps 0 (on_held ch (on_items ch (check_done_ok ch id)))
  Keeps-check_done_ok id = record {
    at = λ s h. held-Evolves id s s.conn (Evolves-refl laws s h);
    calm = λ s h. (check_done_ok-HeldTaken laws id s.conn.stream.incoming s.unsolicited h).calm;
  }

  after_command :
      (s : Session C) (o : Outcome RequestId) (conn : Connection)
      → Evolves laws 1 s (record s { conn = conn })
      → Evolves laws 1 s (
          let held =
            (continue
              (λ id. on_items ch (check_done_ok ch id))
              o
              (record { conn = conn; unsolicited = some s.unsolicited })).1 in
          record { conn = held.conn; unsolicited = sender_or ch s.unsolicited held.unsolicited })
  after_command s (ok id) conn e = held-Evolves id s conn e
  after_command s (err x) conn e = e
  after_command s panic conn e = e

  after_command-IsCalm :
      (s : Session C) (o : Outcome RequestId) (conn : Connection)
      → IsCalm o
      → laws.is_open s.unsolicited ≡ true
      → IsCalm
          (continue
            (λ id. on_items ch (check_done_ok ch id))
            o
            (record { conn = conn; unsolicited = some s.unsolicited })).0
  after_command-IsCalm s (ok id) conn k h =
      (check_done_ok-HeldTaken laws id conn.stream.incoming s.unsolicited h).calm
  after_command-IsCalm s (err x) conn k h = IsCalm-err
  after_command-IsCalm s panic conn k h = absurd (k.no_panic refl)

  pub Keeps-run_command_and_check_ok :
      (command : Bytes) → Keeps 1 (run_command_and_check_ok ch command)
  unfolding run_command_and_check_ok Connection.run_command_and_check_ok
  Keeps-run_command_and_check_ok command = record {
    at = λ s h.
        let e =
          Writes-Evolves laws s (Connection.run_command command s.conn).1 h
            (run_command-Writes command s.conn) in
        after_command s (Connection.run_command command s.conn).0
          (Connection.run_command command s.conn).1 e;
    calm = λ s h.
        after_command-IsCalm s (Connection.run_command command s.conn).0
          (Connection.run_command command s.conn).1 (run_command-IsCalm command s.conn) h;
  }
