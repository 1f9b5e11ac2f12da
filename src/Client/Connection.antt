-- ===== src/Client/Connection.antt =====
-- `Connection` of src/client.rs. Its stream is known here by the items that it will yield and by what
-- is written to it: a run of the code with any server is a run of the model with the items that the
-- server has sent and the faults that the transport has shown.
pub mod Check
pub mod Commands
pub mod Faults
pub mod Taken
pub mod Writes
pub mod Wire
use async_imap.Base.{Option, none, some, List, [], ◌∷◌, ◌++◌, if◌then◌else◌}
use async_imap.Base.Text.{Bytes, equal}
use async_imap.Channel.{Channel}
use async_imap.Client.Exec.{Exec, ◌>>=◌, ◌>>◌, lift}
use async_imap.Error.{Error, IoError, IoResult, Outcome, ok, err}
use async_imap.Error
use async_imap.Parse.{Item, Feed, handle_unilateral}
use async_imap.Parse.Mailbox.{check_status}
use async_imap.Proto.{RequestId, Status, ResponseCode, Response}
use async_imap.Types.IdGenerator
use async_imap.Types.IdGenerator.{IdGenerator, next_id}
use async_imap.Types.Wire.{ResponseData, Request}

-- What is written without an error, in order.
pub data Sent : Type 0 where
  request : Request → Sent
  raw : Bytes → Sent
  flushed : Sent

pub record Stream : Type 0 where
  pub incoming : List Item
  pub sent : List Sent
  -- the outcome of the writes and flushes to come; all succeed behind the end of the list
  pub faults : List (Option IoError)

pub record Connection : Type 0 where
  pub stream : Stream
  pub request_ids : IdGenerator

-- One write or flush: it fails with the next fault, if there is one.
write_with : List (Option IoError) → Sent → Stream → Outcome (Unit {0}) × Stream
write_with [] what s = (ok tt, record s { sent = s.sent ++ what ∷ [] })
write_with (none ∷ faults) what s =
    (ok tt, record s { sent = s.sent ++ what ∷ []; faults = faults })
write_with (some e ∷ faults) what s = (err (Error.io e), record s { faults = faults })

unfoldable pub put : Sent → Exec Connection (Unit {0})
unfolding write_with
put what conn =
    let (o, stream) = write_with conn.stream.faults what conn.stream in
    (o, record conn { stream = stream })

-- `stream.next().await`
next_in : List Item → Stream → Option Item × Stream
next_in [] s = (none, s)
next_in (item ∷ rest) s = (some item, record s { incoming = rest })

unfoldable pub read_response : Exec Connection (Option Item)
unfolding next_in
read_response conn =
    let (item, stream) = next_in conn.stream.incoming conn.stream in
    (ok item, record conn { stream = stream })

unfoldable pub run_command_untagged : Bytes → Exec Connection (Unit {0})
unfolding put
run_command_untagged command = do
  put (Sent.request (record { tag = none; body = command }))
  put Sent.flushed

take_id : Exec Connection RequestId
take_id conn =
    let (id, ids) = next_id conn.request_ids in (ok id, record conn { request_ids = ids })

unfoldable pub run_command : Bytes → Exec Connection RequestId
unfolding put take_id
run_command command = do
  request_id ← take_id
  put (Sent.request (record { tag = some request_id; body = command }))
  put Sent.flushed
  lift (ok request_id)

-- `check_status_ok`
unfoldable pub check_status_ok : Status → Option ResponseCode → Option Bytes → Outcome (Unit {0})
check_status_ok = check_status

-- What a tagged response says of the command: `none` where the loop goes on.
unfoldable pub verdict : RequestId → Response → Option (Outcome (Unit {0}))
unfolding check_status_ok
verdict id (Response.done tag status code information) =
    elim (check_status_ok status code information) [
      | ok _ ↦ if equal tag id then some (ok tt) else none
      | err e ↦ some (err e)
      | Outcome.panic ↦ some Outcome.panic
    ]
verdict id _ = none

module _ {C : Type 0} (ch : Channel C) where
  -- `if let Some(unsolicited) = unsolicited.clone() { handle_unilateral(…) }`
  unfoldable pub handle_optional : Option C → ResponseData → Option (Option C)
  handle_optional none res = some none
  handle_optional (some c) res = elim (handle_unilateral ch res c) [
    | some c' ↦ some (some c')
    | none ↦ none
  ]

  -- One round of the loop in `check_done_ok_from`: the response at hand ends it, or goes to the
  -- channel, and the loop goes on as `next` says.
  settle :
      RequestId
      → ResponseData
      → List Item
      → Option C
      → (Option C → Outcome (Unit {0}) × Feed (Option C))
      → Outcome (Unit {0}) × Feed (Option C)
  settle id response items c next = elim (verdict id response.parsed) [
    | some o ↦ (o, record { incoming = items; chan = c })
    | none ↦ elim (handle_optional c response) [
      | none ↦ (Outcome.panic, record { incoming = items; chan = c })
      | some c' ↦ next c'
    ]
  ]

  -- `check_done_ok_from`, on the response at hand and the items to come.
  unfoldable pub check_done_ok_from :
      RequestId → ResponseData → List Item → Option C → Outcome (Unit {0}) × Feed (Option C)
  unfolding settle
  check_done_ok_from id response [] c =
      settle id response [] c
        (λ c'. (err Error.connection_lost, record { incoming = []; chan = c' }))
  check_done_ok_from id response (IoResult.err e ∷ rest) c =
      settle id response (IoResult.err e ∷ rest) c
        (λ c'. (err (Error.io e), record { incoming = rest; chan = c' }))
  check_done_ok_from id response (IoResult.ok res ∷ rest) c =
      settle id response (IoResult.ok res ∷ rest) c (λ c'. check_done_ok_from id res rest c')

  unfoldable pub check_done_ok :
      RequestId → List Item → Option C → Outcome (Unit {0}) × Feed (Option C)
  unfolding check_done_ok_from
  check_done_ok id [] c = (err Error.connection_lost, record { incoming = []; chan = c })
  check_done_ok id (IoResult.err e ∷ rest) c =
      (err (Error.io e), record { incoming = rest; chan = c })
  check_done_ok id (IoResult.ok first_res ∷ rest) c = check_done_ok_from id first_res rest c

  -- A connection with the sender, if there is one, that a call was given.
  pub record Held : Type 0 where
    pub conn : Connection
    pub unsolicited : Option C

  abbrev pub on_conn : {A : Type 0} → Exec Connection A → Exec Held A
  on_conn m s = let (o, conn) = m s.conn in (o, record s { conn = conn })

  abbrev pub on_items :
      (List Item → Option C → Outcome (Unit {0}) × Feed (Option C)) → Exec Held (Unit {0})
  on_items f s =
      let (o, feed) = f s.conn.stream.incoming s.unsolicited in
      (
        o,
        record s {
          conn = record s.conn { stream = record s.conn.stream { incoming = feed.incoming } };
          unsolicited = feed.chan;
        },
      )

  unfoldable pub run_command_and_check_ok : Bytes → Exec Held (Unit {0})
  run_command_and_check_ok command = do
    id ← on_conn (run_command command)
    on_items (check_done_ok id)
