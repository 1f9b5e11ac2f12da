-- ===== src/Parse/Mailbox.antt =====
-- `parse_mailbox` and `parse_status` of src/parse.rs, the readers that look at the tagged response.
pub mod Fields
pub mod Laws
pub mod Taken
pub mod Reports
pub mod Answers
use async_imap.Base.{Option, none, some, List, [], ◌∷◌, ◌++◌, map, foldl, if◌then◌else◌}
use async_imap.Base.Text.{Bytes, equal}
use async_imap.Channel.{Channel}
use async_imap.Error.{Error, IoKind, IoMessage, IoResult, Outcome}
use async_imap.Parse.{Item, Feed, handle_unilateral}
use async_imap.Proto.{RequestId, Status, ResponseCode, StatusAttribute, Response, MailboxDatum}
use async_imap.Types.Flag
use async_imap.Types.Mailbox.{Mailbox, default}
use async_imap.Types.Wire.{ResponseData}

-- What a status other than `Ok` makes of the command; the same arms stand in `parse_status`,
-- `parse_mailbox` and `check_status_ok`.
unfoldable pub check_status : Status → Option ResponseCode → Option Bytes → Outcome (Unit {0})
check_status Status.ok code information = Outcome.ok tt
check_status Status.bad code information = Outcome.err (Error.bad code information)
check_status Status.no code information = Outcome.err (Error.no code information)
check_status Status.other code information = Outcome.err (
    Error.io (record {
      kind = IoKind.other;
      message = IoMessage.status_line Status.other code information;
    }))

-- One round of a reader: it goes on with a mailbox, leaves the loop with success, or returns.
pub data Round (C : Type 0) : Type 0 where
  go : Mailbox → C → Round C
  break : Mailbox → C → Round C
  fail : Outcome Mailbox → C → Round C

-- `Response::Data` with status `Ok`.
pub note_code : Mailbox → Option ResponseCode → Mailbox
note_code mailbox (some (ResponseCode.uid_validity uid)) = record mailbox {
  uid_validity = some uid;
}
note_code mailbox (some (ResponseCode.uid_next unext)) = record mailbox { uid_next = some unext }
note_code mailbox (some (ResponseCode.highest_mod_seq n)) = record mailbox {
  highest_modseq = some n;
}
note_code mailbox (some (ResponseCode.unseen n)) = record mailbox { unseen = some n }
note_code mailbox (some (ResponseCode.permanent_flags flags)) = record mailbox {
  permanent_flags = mailbox.permanent_flags ++ map Flag.from flags;
}
note_code mailbox _ = mailbox

-- `Response::MailboxData`, but for `Status`.
pub note_datum : Mailbox → MailboxDatum → Mailbox
note_datum mailbox (MailboxDatum.exists e) = record mailbox { exists = e }
note_datum mailbox (MailboxDatum.recent r) = record mailbox { recent = r }
note_datum mailbox (MailboxDatum.flags flags) = record mailbox {
  flags = mailbox.flags ++ map Flag.from flags;
}
note_datum mailbox _ = mailbox

-- One attribute of a `STATUS` response.
pub note_attribute : Mailbox → StatusAttribute → Mailbox
note_attribute mbox (StatusAttribute.highest_mod_seq n) = record mbox { highest_modseq = some n }
note_attribute mbox (StatusAttribute.messages n) = record mbox { exists = n }
note_attribute mbox (StatusAttribute.recent n) = record mbox { recent = n }
note_attribute mbox (StatusAttribute.uid_next n) = record mbox { uid_next = some n }
note_attribute mbox (StatusAttribute.uid_validity n) = record mbox { uid_validity = some n }
note_attribute mbox (StatusAttribute.unseen n) = record mbox { unseen = some n }
note_attribute mbox _ = mbox

unfoldable pub note_attributes : Mailbox → List StatusAttribute → Mailbox
unfolding note_attribute
note_attributes = foldl note_attribute

module _ {C : Type 0} (ch : Channel C) where
  -- `Done` with the tag of the command.
  leave : Mailbox → C → Outcome (Unit {0}) → Round C
  leave mbox c (Outcome.ok _) = break mbox c
  leave mbox c (Outcome.err e) = fail (Outcome.err e) c
  leave mbox c Outcome.panic = fail Outcome.panic c

  -- `handle_unilateral(resp, unsolicited.clone()).await`
  pass_on : ResponseData → Mailbox → C → Round C
  pass_on resp mbox c = elim (handle_unilateral ch resp c) [
    | some c' ↦ go mbox c'
    | none ↦ fail Outcome.panic c
  ]

  -- `Response::Data`
  note_data : Mailbox → C → Option ResponseCode → Outcome (Unit {0}) → Round C
  unfolding note_code
  note_data mailbox c code (Outcome.ok _) = go (note_code mailbox code) c
  note_data mailbox c code (Outcome.err e) = fail (Outcome.err e) c
  note_data mailbox c code Outcome.panic = fail Outcome.panic c

  unfoldable pub mailbox_round : RequestId → ResponseData → Mailbox → C → Response → Round C
  unfolding leave pass_on note_data note_datum
  mailbox_round command_tag resp mailbox c (Response.done tag status code information) =
      if equal tag command_tag
      then leave mailbox c (check_status status code information)
      else pass_on resp mailbox c
  mailbox_round command_tag resp mailbox c (Response.status_data status code information) =
      note_data mailbox c code (check_status status code information)
  mailbox_round command_tag resp mailbox c (Response.mailbox_data (MailboxDatum.status _ _)) =
      pass_on resp mailbox c
  mailbox_round command_tag resp mailbox c (Response.mailbox_data m) = go (note_datum mailbox m) c
  mailbox_round command_tag resp mailbox c _ = pass_on resp mailbox c

  unfoldable pub status_round : Bytes → RequestId → ResponseData → Mailbox → C → Response → Round C
  unfolding leave pass_on
  status_round expected command_tag resp mbox c (Response.done tag status code information) =
      if equal tag command_tag
      then leave mbox c (check_status status code information)
      else pass_on resp mbox c
  status_round expected command_tag resp mbox c
        (Response.mailbox_data (MailboxDatum.status mailbox status)) =
      if equal mailbox expected then go (note_attributes mbox status) c else pass_on resp mbox c
  status_round expected command_tag resp mbox c _ = pass_on resp mbox c

  -- `while let Some(resp) = stream.next().await { let resp = resp?; … } Ok(mbox)`
  unfoldable pub while_rounds :
      (ResponseData → Mailbox → C → Round C) → Mailbox → List Item → C → Outcome Mailbox × Feed C
  while_rounds round mbox [] c = (Outcome.ok mbox, record { incoming = []; chan = c })
  while_rounds round mbox (IoResult.err e ∷ rest) c =
      (Outcome.err (Error.io e), record { incoming = rest; chan = c })
  while_rounds round mbox (IoResult.ok resp ∷ rest) c = elim (round resp mbox c) [
    | go mbox' c' ↦ while_rounds round mbox' rest c'
    | break mbox' c' ↦ (Outcome.ok mbox', record { incoming = rest; chan = c' })
    | fail o c' ↦ (o, record { incoming = rest; chan = c' })
  ]

  unfoldable pub parse_mailbox : RequestId → List Item → C → Outcome Mailbox × Feed C
  unfolding while_rounds mailbox_round
  parse_mailbox command_tag =
      while_rounds (λ resp mailbox c. mailbox_round command_tag resp mailbox c resp.parsed) default

  unfoldable pub parse_status : Bytes → RequestId → List Item → C → Outcome Mailbox × Feed C
  unfolding while_rounds status_round
  parse_status expected_mailbox command_tag =
      while_rounds
        (λ resp mbox c. status_round expected_mailbox command_tag resp mbox c resp.parsed) default
