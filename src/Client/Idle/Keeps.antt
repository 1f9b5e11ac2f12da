-- ===== src/Client/Idle/Keeps.antt =====
-- How `init`, `wait_with_timeout` and `done` of src/extensions/idle.rs may change the session that the
-- handle wraps, whatever the server sends and whichever writes fail.
use async_imap.Base.{◌≡◌, refl, true, Option, none, some, List}
use async_imap.Base.Text.{codes}
use async_imap.Channel.{Channel, ChannelLaws}
use async_imap.Client.Idle.{
  Handle, Event, init, after_idle, wait_with_timeout, done, done_with, give_back,
}
use async_imap.Client.Idle.Taken.{init_loop-Taken, wait_loop-Taken}
use async_imap.Client.Session.{Session, run_command}
use async_imap.Client.Steps.Evolves.{Evolves, Evolves-refl, Evolves-append_untagged, Taken-Evolves}
use async_imap.Client.Steps.Keeps.{
  Keeps-bind, Keeps-run_command, Keeps-run_command_untagged, Keeps-check_done_ok,
}
use async_imap.Error.{Outcome, ok, err}
use async_imap.Proto.{RequestId}

module _ {C : Type 0} {ch : Channel C} (laws : ChannelLaws ch) where
  after_idle-Evolves :
      {s s' : Session C} (o : Outcome RequestId) (h : Handle C)
      → Evolves laws 1 s s'
      → Evolves laws 1 s (after_idle ch (o, s') h).1.session
  unfolding after_idle
  after_idle-Evolves {s' = s'} (ok id) h e = Evolves-append_untagged laws e (
      Taken-Evolves laws s' _
        (init_loop-Taken laws id s'.conn.stream.incoming s'.unsolicited e.received.open_is))
  after_idle-Evolves (err x) h e = e
  after_idle-Evolves Outcome.panic h e = e

  pub init-Evolves :
      (h : Handle C)
      → laws.is_open h.session.unsolicited ≡ true
      → Evolves laws 1 h.session (init ch h).1.session
  unfolding init
  init-Evolves h o =
      after_idle-Evolves (run_command (codes "IDLE") h.session).0 h
        ((Keeps-run_command laws (codes "IDLE")).at h.session o)

  waited-Evolves :
      (events : List Event) (h : Handle C) (id : Option RequestId)
      → h.id ≡ id
      → laws.is_open h.session.unsolicited ≡ true
      → Evolves laws 0 h.session (wait_with_timeout ch events h).1.session
  unfolding wait_with_timeout
  waited-Evolves events h none e o = rw (e, wait_with_timeout) (Evolves-refl laws h.session o)
  waited-Evolves events h (some id) e o =
      rw (e, wait_with_timeout)
        (Taken-Evolves laws h.session _
          (wait_loop-Taken laws events h.session.conn.stream.incoming h.session.unsolicited o))

  pub wait-Evolves :
      (events : List Event) (h : Handle C)
      → laws.is_open h.session.unsolicited ≡ true
      → Evolves laws 0 h.session (wait_with_timeout ch events h).1.session
  wait-Evolves events h o = waited-Evolves events h h.id refl o

  gives_back : (r : Outcome (Unit {0}) × Session C) → (give_back ch r).1 ≡ r.1
  unfolding give_back
  gives_back (ok _, s) = refl
  gives_back (err e, s) = refl
  gives_back (Outcome.panic, s) = refl

  done-Evolves_at :
      (h : Handle C) (id : Option RequestId)
      → h.id ≡ id
      → laws.is_open h.session.unsolicited ≡ true
      → Evolves laws 0 h.session (done ch h).1
  unfolding done
  done-Evolves_at h none e o = rw (e, done) (Evolves-refl laws h.session o)
  done-Evolves_at h (some id) e o =
      rw (e, done, gives_back)
        (unfold done_with in
          (Keeps-bind laws _ _ (Keeps-run_command_untagged laws (codes "DONE"))
              (λ _. Keeps-check_done_ok laws id)).at
            h.session o)

  pub done-Evolves :
      (h : Handle C)
      → laws.is_open h.session.unsolicited ≡ true
      → Evolves laws 0 h.session (done ch h).1
  done-Evolves h o = done-Evolves_at h h.id refl o
