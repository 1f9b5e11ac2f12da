-- ===== src/Client/Connection/Check.antt =====
-- When `check_done_ok` of src/client.rs succeeds, and with which error it fails.
use async_imap.Base.{
  ◌≡◌, ◌≢◌, refl, ◌∙◌, true, false, Option, none, some, List, [], ◌∷◌, ◌++◌, map, arith,
}
use async_imap.Base.Text.{Bytes, equal, equal_refl}
use async_imap.Channel.{Channel, ChannelLaws}
use async_imap.Client.Connection.{
  handle_optional, verdict, settle, check_status_ok, check_done_ok_from, check_done_ok,
}
use async_imap.Error.{Error, IoError, IoResult, Outcome, ok, err}
use async_imap.Parse.{Item, handle_unilateral}
use async_imap.Parse.Mailbox.{check_status}
use async_imap.Parse.Received.{
  message, Received, Received-nil, Received-append, handle_unilateral-Received,
}
use async_imap.Proto.{RequestId, Status, ResponseCode, Response}
use async_imap.Types.Wire.{ResponseData}

-- A response after which the client goes on waiting: an untagged one, or a success of another command.
abbrev pub IsQuiet : RequestId → Response → Type 0
IsQuiet id (Response.done tag status code information) =
    (status ≡ Status.ok) × (equal tag id ≡ false)
IsQuiet id _ = Unit

abbrev pub AllQuiet : RequestId → List ResponseData → Type 0
AllQuiet id [] = Unit
AllQuiet id (r ∷ rs) = IsQuiet id r.parsed × AllQuiet id rs

-- The item that decides: the success of the command, a failure of any command, the end of the stream
-- or an error of it.
pub data Decision : Type 0 where
  succeeded : Bytes → Option ResponseCode → Option Bytes → List Item → Decision
  refused : Bytes → RequestId → Status → Option ResponseCode → Option Bytes → List Item → Decision
  lost : Decision
  broken : IoError → List Item → Decision

abbrev pub decision_items : RequestId → Decision → List Item
decision_items id (succeeded owner code information after) =
    IoResult.ok (record { owner = owner; parsed = Response.done id Status.ok code information })
    ∷ after
decision_items id (refused owner tag status code information after) =
    IoResult.ok (record { owner = owner; parsed = Response.done tag status code information })
    ∷ after
decision_items id lost = []
decision_items id (broken e after) = IoResult.err e ∷ after

abbrev pub decision_rest : Decision → List Item
decision_rest (succeeded owner code information after) = after
decision_rest (refused owner tag status code information after) = after
decision_rest lost = []
decision_rest (broken e after) = after

abbrev pub decision_outcome : Decision → Outcome (Unit {0})
decision_outcome (succeeded owner code information after) = ok tt
decision_outcome (refused owner tag status code information after) =
    check_status status code information
decision_outcome lost = err Error.connection_lost
decision_outcome (broken e after) = err (Error.io e)

abbrev pub IsDecision : Decision → Type 0
IsDecision (refused owner tag status code information after) = status ≢ Status.ok
IsDecision _ = Unit

verdict_quiet : (id : RequestId) (r : Response) → IsQuiet id r → verdict id r ≡ none
unfolding verdict check_status_ok check_status
verdict_quiet id (Response.done tag status code information) (e, ne) = ground arith
verdict_quiet id _ q = refl

module _ {C : Type 0} (ch : Channel C) where
  check_decides :
      (id : RequestId) (d : Decision) (c : Option C)
      → IsDecision d
      → check_done_ok ch id (decision_items id d) c
        ≡ (decision_outcome d, record { incoming = decision_rest d; chan = c })
  unfolding check_done_ok check_done_ok_from settle verdict check_status_ok check_status
  check_decides id (succeeded owner code information []) c w = ground (arith, equal_refl id)
  check_decides id (succeeded owner code information (IoResult.ok x ∷ after)) c w =
      ground (arith, equal_refl id)
  check_decides id (succeeded owner code information (IoResult.err x ∷ after)) c w =
      ground (arith, equal_refl id)
  check_decides id (refused owner tag status code information []) c w = ground arith
  check_decides id (refused owner tag status code information (IoResult.ok x ∷ after)) c w =
      ground arith
  check_decides id (refused owner tag status code information (IoResult.err x ∷ after)) c w =
      ground arith
  check_decides id lost c w = refl
  check_decides id (broken e after) c w = refl

module _ {C : Type 0} {ch : Channel C} (laws : ChannelLaws ch) where
  check_quiet :
      (id : RequestId) (r : ResponseData) (rest : List Item) (c c' : C)
      → IsQuiet id r.parsed
      → handle_unilateral ch r c ≡ some c'
      → check_done_ok ch id (IoResult.ok r ∷ rest) (some c) ≡ check_done_ok ch id rest (some c')
  unfolding check_done_ok check_done_ok_from settle handle_optional
  check_quiet id r [] c c' q h = ground (arith, verdict_quiet id r.parsed q)
  check_quiet id r (IoResult.ok x ∷ rest) c c' q h = ground (arith, verdict_quiet id r.parsed q)
  check_quiet id r (IoResult.err e ∷ rest) c c' q h = ground (arith, verdict_quiet id r.parsed q)

  -- With an open channel, a command succeeds exactly where its own tagged `OK` comes before any
  -- failure: the first tagged response that is not `OK`, of whichever command, makes it fail with that
  -- status; the end of the stream is `ConnectionLost` and an I/O error that error; all responses before
  -- are offered to the channel, in order, and what follows stays in the stream.
  pub check_done_ok_lem :
      (id : RequestId) (before : List ResponseData) (d : Decision) (c : C)
      → AllQuiet id before
      → IsDecision d
      → laws.is_open c ≡ true
      → (c' : C) × (check_done_ok ch id (map IoResult.ok before ++ decision_items id d) (some c)
          ≡ (decision_outcome d, record { incoming = decision_rest d; chan = some c' }))
        × Received laws c (map message before) c'
  check_done_ok_lem id [] d c q w o = (c, check_decides ch id d (some c) w, Received-nil laws c o)
  check_done_ok_lem id (r ∷ before) d c (q, qs) w o =
      let (c', sent, got) = handle_unilateral-Received laws r c o in
      let (c'', later, more) = check_done_ok_lem id before d c' qs w got.open_is in
      (c'', check_quiet id r _ c c' q sent ∙ later, Received-append laws got more)

-- The same without a channel, as the client waits before it has a session: the responses before are
-- dropped.
module _ {C : Type 0} (ch : Channel C) where
  check_quiet_alone :
      (id : RequestId) (r : ResponseData) (rest : List Item)
      → IsQuiet id r.parsed
      → check_done_ok ch id (IoResult.ok r ∷ rest) none ≡ check_done_ok ch id rest none
  unfolding check_done_ok check_done_ok_from settle handle_optional
  check_quiet_alone id r [] q = ground (arith, verdict_quiet id r.parsed q)
  check_quiet_alone id r (IoResult.ok x ∷ rest) q = ground (arith, verdict_quiet id r.parsed q)
  check_quiet_alone id r (IoResult.err e ∷ rest) q = ground (arith, verdict_quiet id r.parsed q)

  pub check_done_ok_alone :
      (id : RequestId) (before : List ResponseData) (d : Decision)
      → AllQuiet id before
      → IsDecision d
      → check_done_ok ch id (map IoResult.ok before ++ decision_items id d) none
        ≡ (decision_outcome d, record { incoming = decision_rest d; chan = none })
  check_done_ok_alone id [] d q w = check_decides ch id d none w
  check_done_ok_alone id (r ∷ before) d (q, qs) w =
      check_quiet_alone id r _ q ∙ check_done_ok_alone id before d qs w
