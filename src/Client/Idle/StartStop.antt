-- ===== src/Client/Idle/StartStop.antt =====
-- `init` and `done` of src/extensions/idle.rs: how a session begins to idle, and how it stops.
use async_imap.Base.{◌≡◌, refl, true, false, Option, none, some, List, [], ◌∷◌, ◌++◌, map}
use async_imap.Base.Text.{Bytes, codes, equal}
use async_imap.Channel.{Channel, ChannelLaws}
use async_imap.Client.Connection.Check.{
  AllQuiet, Decision, decision_items, decision_rest, decision_outcome, IsDecision,
  check_done_ok_lem,
}
use async_imap.Client.Connection.Commands.{
  next_tag, issued, issued_untagged, awaiting, run_command_lem, run_command_untagged_lem,
}
use async_imap.Client.Idle.{
  Handle, init, init_loop, init_verdict, after_idle, done, done_with, give_back,
}
use async_imap.Client.Session.{Session, run_command, run_command_untagged}
use async_imap.Error.{IoResult, Outcome, ok, err}
use async_imap.Parse.{Item}
use async_imap.Parse.Received.{
  message, Received, Received-nil, Received-append, handle_unilateral-Received,
}
use async_imap.Proto.{RequestId, Status, ResponseCode, Response}
use async_imap.Types.Wire.{ResponseData}

-- A response before the continuation: neither that, nor a `BAD` for the command.
abbrev pub IsEarly : RequestId → Response → Type 0
IsEarly id (Response.continue _ _) = ⊥
IsEarly id (Response.done tag status code information) =
    (status ≡ Status.bad → equal tag id ≡ false)
IsEarly id _ = Unit

abbrev pub AllEarly : RequestId → List ResponseData → Type 0
AllEarly id [] = Unit
AllEarly id (r ∷ rs) = IsEarly id r.parsed × AllEarly id rs

-- The continuation request that the client waits for.
abbrev pub go_ahead : Bytes → Option ResponseCode → Option Bytes → Item
go_ahead owner code information =
    IoResult.ok (record { owner = owner; parsed = Response.continue code information })

-- The session, or the error, that `done` gives.
abbrev pub session_or : {C : Type 0} → Session C → Outcome (Unit {0}) → Outcome (Session C)
session_or s (ok _) = ok s
session_or s (err e) = err e
session_or s Outcome.panic = Outcome.panic

module _ {C : Type 0} {ch : Channel C} (laws : ChannelLaws ch) where
  early : (id : RequestId) (r : Response) → IsEarly id r → init_verdict ch id r ≡ none
  unfolding init_verdict
  early id (Response.continue code information) q = absurd q
  early id (Response.done tag Status.bad code information) q = rw (q refl) refl
  early id _ q = refl

  init_loop_lem :
      (id : RequestId) (before : List ResponseData) (owner : Bytes) (code : Option ResponseCode)
      (information : Option Bytes) (after : List Item) (c : C)
      → AllEarly id before
      → laws.is_open c ≡ true
      → (c' : C) × (init_loop ch id
            (map IoResult.ok before ++ go_ahead owner code information ∷ after)
            c
          ≡ (ok tt, record { incoming = after; chan = c' }))
        × Received laws c (map message before) c'
  unfolding init_loop
  init_loop_lem id [] owner code information after c q o =
      (c, unfold init_loop init_verdict in refl, Received-nil laws c o)
  init_loop_lem id (r ∷ before) owner code information after c (q, qs) o =
      let (c', sent, got) = handle_unilateral-Received laws r c o in
      let (c'', later, more) =
        init_loop_lem id before owner code information after c' qs got.open_is in
      (c'', rw (early id r.parsed q, sent, init_loop) later, Received-append laws got more)

  -- On a session whose writes succeed and whose channel is open, `init` sends `IDLE` with a fresh
  -- tag, keeps that tag in the handle, and returns at the continuation request, where no tagged
  -- `BAD` for the command comes before it; all responses before it, a tagged `NO` for the command
  -- included, are offered to the channel, in order, and what follows stays in the stream.
  pub init_lem :
      (h : Handle C) (before : List ResponseData) (owner : Bytes) (code : Option ResponseCode)
      (information : Option Bytes) (after : List Item)
      → h.session.conn.stream.faults ≡ []
      → h.session.conn.stream.incoming
        ≡ map IoResult.ok before ++ go_ahead owner code information ∷ after
      → AllEarly (next_tag h.session.conn) before
      → laws.is_open h.session.unsolicited ≡ true
      → (c' : C) × (init ch h ≡ (
        ok tt,
        record {
          session = record {
            conn = awaiting after (issued (codes "IDLE") h.session.conn);
            unsolicited = c';
          };
          id = some (next_tag h.session.conn);
        },
      ))
        × Received laws h.session.unsolicited (map message before) c'
  unfolding init after_idle run_command
  init_lem h before owner code information after f i q o =
      let (c', e, got) =
        init_loop_lem (next_tag h.session.conn) before owner code information after
          h.session.unsolicited q o in
      (c', rw (run_command_lem (codes "IDLE") h.session.conn f, i, e) refl, got)

  given_back : (o : Outcome (Unit {0})) (s : Session C) → give_back ch (o, s) ≡ (session_or s o, s)
  unfolding give_back
  given_back (ok _) s = refl
  given_back (err e) s = refl
  given_back Outcome.panic s = refl

  -- On a handle that idles with tag `id`, where the writes succeed and the channel is open, `done` sends
  -- `DONE` without a tag and then waits for the verdict on the command with that tag: it gives back the
  -- session for its `OK`, and the error otherwise; the responses before are offered to the channel, in
  -- order, and what follows stays in the stream.
  pub done_lem :
      (h : Handle C) (id : RequestId) (before : List ResponseData) (d : Decision)
      → h.id ≡ some id
      → h.session.conn.stream.faults ≡ []
      → h.session.conn.stream.incoming ≡ map IoResult.ok before ++ decision_items id d
      → AllQuiet id before
      → IsDecision d
      → laws.is_open h.session.unsolicited ≡ true
      → (s : Session C) × (done ch h ≡ (session_or s (decision_outcome d), s))
        × (s.conn ≡ awaiting (decision_rest d) (issued_untagged (codes "DONE") h.session.conn))
        × Received laws h.session.unsolicited (map message before) s.unsolicited
  unfolding done done_with run_command_untagged
  done_lem h id before d k f i q w o =
      let (c', e, got) = check_done_ok_lem laws id before d h.session.unsolicited q w o in
      let s : Session C = record {
        conn = awaiting (decision_rest d) (issued_untagged (codes "DONE") h.session.conn);
        unsolicited = c';
      } in
      let run : done_with ch id h.session ≡ (decision_outcome d, s) =
        rw (run_command_untagged_lem (codes "DONE") h.session.conn f, i, e) refl in
      (s, rw (k, done, run) (given_back (decision_outcome d) s), refl, got)
