-- ===== src/Client/Idle.antt =====
-- src/extensions/idle.rs: a session in the state of idling.
pub mod StartStop
pub mod Waiting
pub mod Keeps
pub mod Taken
use async_imap.Base.{Bool, Option, none, some, List, [], ◌∷◌, if◌then◌else◌}
use async_imap.Base.Text.{Bytes, codes, equal}
use async_imap.Channel.{Channel}
use async_imap.Client.Connection.{on_items, check_done_ok}
use async_imap.Client.Exec.{Exec, ◌>>◌}
use async_imap.Client.Session.{
  Session, read_response, run_command, run_command_untagged, on_held, reading,
}
use async_imap.Error.{Error, IoKind, IoMessage, IoResult, Outcome, ok, err}
use async_imap.Parse.{Item, Feed, handle_unilateral}
use async_imap.Proto.{RequestId, Response, Status}
use async_imap.Types.Wire.{ResponseData}

pub record Handle (C : Type 0) : Type 0 where
  pub session : Session C
  pub id : Option RequestId

pub data IdleResponse : Type 0 where
  manual_interrupt timeout : IdleResponse
  new_data : ResponseData → IdleResponse

-- What ends each waiting of the loop in `wait_with_timeout`: the timer, the stop token, or the next
-- item of the stream, or its end.
pub data Event : Type 0 where
  elapsed interrupted arrived : Event

-- How a call of the future ended; it is still waiting where the events are used up.
pub data Waited : Type 0 where
  answer : Outcome IdleResponse → Waited
  waiting : Waited

refusal : Bytes → Error
refusal text = Error.io (record { kind = IoKind.connection_refused; message = IoMessage.text text })

-- `IdleStream`, around any stream with its poll.
pub record IdleStream (S : Type 0) : Type 0 where
  pub stream : S

module _ {S I : Type 0} (poll : S → I × S) (is_terminated_of : S → Bool) where
  unfoldable pub poll_next : IdleStream S → I × IdleStream S
  poll_next st = let (item, stream) = poll st.stream in (item, record { stream = stream })

  unfoldable pub is_terminated : IdleStream S → Bool
  is_terminated st = is_terminated_of st.stream

module _ {C : Type 0} where
  -- `Stream::poll_next` of a handle, on the stream of the connection.
  unfoldable pub next_response : Exec (Handle C) (Option Item)
  next_response h = let (o, s) = read_response h.session in (o, record h { session = s })

  unfoldable pub new : Session C → Handle C
  new session = record { session = session; id = none }

-- What a response does to the wait: it ends it, or the wait goes on, with or without a look at the
-- channel.
pub data Heard : Type 0 where
  keepalive : Heard
  tagged : Heard
  news : Heard

unfoldable pub hear : Response → Heard
hear (Response.status_data Status.ok _ _) = keepalive
hear (Response.continue _ _) = keepalive
hear (Response.done _ _ _ _) = tagged
hear _ = news

module _ {C : Type 0} (ch : Channel C) where
  -- The loop of `wait_with_timeout`, over the events and the items to come.
  unfoldable pub wait_loop : List Event → List Item → C → Waited × Feed C
  wait_loop [] items c = (waiting, record { incoming = items; chan = c })
  wait_loop (elapsed ∷ events) items c =
      (answer (ok timeout), record { incoming = items; chan = c })
  wait_loop (interrupted ∷ events) items c =
      (answer (ok manual_interrupt), record { incoming = items; chan = c })
  wait_loop (arrived ∷ events) [] c =
      (answer (ok manual_interrupt), record { incoming = []; chan = c })
  wait_loop (arrived ∷ events) (IoResult.err e ∷ rest) c =
      (answer (err (Error.io e)), record { incoming = rest; chan = c })
  wait_loop (arrived ∷ events) (IoResult.ok resp ∷ rest) c = elim (hear resp.parsed) [
    | keepalive ↦ wait_loop events rest c
    | tagged ↦ elim (handle_unilateral ch resp c) [
      | some c' ↦ wait_loop events rest c'
      | none ↦ (answer Outcome.panic, record { incoming = rest; chan = c })
    ]
    | news ↦ (answer (ok (new_data resp)), record { incoming = rest; chan = c })
  ]

  -- `assert!(self.id.is_some())`, and the loop.
  unfoldable pub wait_with_timeout : List Event → Handle C → Waited × Handle C
  unfolding wait_loop
  wait_with_timeout events h = elim h.id [
    | none ↦ (answer Outcome.panic, h)
    | some _ ↦
        let (w, s) =
          reading {A = Waited} (λ items c. let (w, feed) = wait_loop events items c in (ok w, feed))
            h.session in
        (
          elim w [ ok a ↦ a | err e ↦ answer (err e) | Outcome.panic ↦ answer Outcome.panic ],
          record h { session = s },
        )
  ]

  -- `wait_with_timeout` of a day: `elapsed` is then the timer of 24 * 60 * 60 seconds.
  unfoldable pub wait : List Event → Handle C → Waited × Handle C
  wait events h = wait_with_timeout events h

  -- `information.as_ref().unwrap()` of a `BAD`.
  bad_init : Option Bytes → Outcome (Unit {0})
  unfolding refusal
  bad_init none = Outcome.panic
  bad_init (some information) = err (refusal information)

  -- The answer of `init` to a response, if it ends the loop.
  init_verdict : RequestId → Response → Option (Outcome (Unit {0}))
  unfolding bad_init
  init_verdict id (Response.continue _ _) = some (ok tt)
  init_verdict id (Response.done tag Status.bad code information) =
      if equal tag id then some (bad_init information) else none
  init_verdict id _ = none

  -- The loop of `init`.
  unfoldable pub init_loop : RequestId → List Item → C → Outcome (Unit {0}) × Feed C
  unfolding init_verdict refusal
  init_loop id [] c = (err (refusal []), record { incoming = []; chan = c })
  init_loop id (IoResult.err e ∷ rest) c = (err (Error.io e), record { incoming = rest; chan = c })
  init_loop id (IoResult.ok res ∷ rest) c = elim (init_verdict id res.parsed) [
    | some o ↦ (o, record { incoming = rest; chan = c })
    | none ↦ elim (handle_unilateral ch res c) [
      | some c' ↦ init_loop id rest c'
      | none ↦ (Outcome.panic, record { incoming = rest; chan = c })
    ]
  ]

  -- `self.id = Some(id)`
  after_idle : Outcome RequestId × Session C → Handle C → Outcome (Unit {0}) × Handle C
  unfolding init_loop
  after_idle (ok id, s) h =
      let (o, s') = reading (init_loop id) s in (o, record { session = s'; id = some id })
  after_idle (err e, s) h = (err e, record h { session = s })
  after_idle (Outcome.panic, s) h = (Outcome.panic, record h { session = s })

  unfoldable pub init : Exec (Handle C) (Unit {0})
  unfolding after_idle
  init h = after_idle (run_command (codes "IDLE") h.session) h

  done_with : RequestId → Exec (Session C) (Unit {0})
  done_with id = do
    run_command_untagged (codes "DONE")
    on_held ch (on_items ch (check_done_ok ch id))

  give_back : Outcome (Unit {0}) × Session C → Outcome (Session C) × Session C
  give_back (ok _, s) = (ok s, s)
  give_back (err e, s) = (err e, s)
  give_back (Outcome.panic, s) = (Outcome.panic, s)

  -- `done`, which takes the handle; the session comes back where there is no error.
  unfoldable pub done : Handle C → Outcome (Session C) × Session C
  unfolding done_with give_back
  done h = elim h.id [
    | none ↦ (Outcome.panic, h.session)
    | some id ↦ give_back (done_with id h.session)
  ]
