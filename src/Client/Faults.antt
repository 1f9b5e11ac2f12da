-- ===== src/Client/Faults.antt =====
-- What the commands of src/client.rs do where their line cannot be written.
use async_imap.Base.{ℕ, ◌≡◌, refl, Option, List}
use async_imap.Base.Text.{Bytes}
use async_imap.Channel.{Channel}
use async_imap.Client.Connection
use async_imap.Client.Connection.{Connection}
use async_imap.Client.Connection.Faults.{NextLineFails, Unread, run_command-fails}
use async_imap.Client.Exec.{Exec, ◌>>=◌}
use async_imap.Client.Mailboxes.{
  noop, logout, rename, subscribe, unsubscribe, capabilities, check, close, list, lsub, get_quota,
  get_quota_root, get_metadata, id, id_nil,
}
use async_imap.Client.Messages.{
  fetch, uid_fetch, expunge, uid_expunge, store, uid_store, copy, uid_copy, search, uid_search,
  append,
}
use async_imap.Client.Session.{Session, run_command, run_command_and_check_ok}
use async_imap.Error.{Error, IoError, Outcome, err}
use async_imap.Proto.{RequestId}

-- The run `r` of a command from session `s` has failed with the error of the transport: a tag is used up,
-- no response is read, and nothing is sent to the channel.
pub record Unsent {C A : Type 0} (e : IoError) (s : Session C) (r : Outcome A × Session C)
    : Type 0 where
  pub result_is : r.0 ≡ err (Error.io e)
  pub conn_is : Unread s.conn r.1.conn
  pub unsolicited_is : r.1.unsolicited ≡ s.unsolicited

module _ {C : Type 0} where
  -- Whatever a command does behind its line.
  run_command-Unsent :
      {A : Type 0} (e : IoError) (command : Bytes) (rest : RequestId → Exec (Session C) A)
      (s : Session C)
      → NextLineFails e s.conn
      → Unsent e s ((run_command command >>= rest) s)
  unfolding run_command
  run_command-Unsent e command rest s h =
      let (t, fails, unread) = run_command-fails e command s.conn h in
      rw fails (record { result_is = refl; conn_is = unread; unsolicited_is = refl })

  checked-Unsent :
      (ch : Channel C) (e : IoError) (command : Bytes) (s : Session C)
      → NextLineFails e s.conn
      → Unsent e s (run_command_and_check_ok ch command s)
  unfolding run_command_and_check_ok Connection.run_command_and_check_ok
  checked-Unsent ch e command s h =
      let (t, fails, unread) = run_command-fails e command s.conn h in
      rw fails (record { result_is = refl; conn_is = unread; unsolicited_is = refl })

  -- Where the write of its line or the flush behind it fails, each of the commands below fails with that
  -- error; its tag is used up, no response is read, and nothing is sent to the channel.
  pub write_fault_reported :
      (ch : Channel C) (e : IoError) (a b c : Bytes) (reference_name mailbox_pattern : Option Bytes)
      (identification : List (Bytes × Option Bytes)) (asked : ℕ) (s : Session C)
      → NextLineFails e s.conn
      → Unsent e s (noop ch s)
        × Unsent e s (logout ch s)
        × Unsent e s (rename ch a b s)
        × Unsent e s (subscribe ch a s)
        × Unsent e s (unsubscribe ch a s)
        × Unsent e s (capabilities ch s)
        × Unsent e s (check ch s)
        × Unsent e s (close ch s)
        × Unsent e s (list ch reference_name mailbox_pattern asked s)
        × Unsent e s (lsub ch reference_name mailbox_pattern asked s)
        × Unsent e s (get_quota ch a s)
        × Unsent e s (get_quota_root ch a s)
        × Unsent e s (get_metadata ch a b c s)
        × Unsent e s (id ch identification s)
        × Unsent e s (id_nil ch s)
        × Unsent e s (fetch ch a b asked s)
        × Unsent e s (uid_fetch ch a b asked s)
        × Unsent e s (expunge ch asked s)
        × Unsent e s (uid_expunge ch a asked s)
        × Unsent e s (store ch a b asked s)
        × Unsent e s (uid_store ch a b asked s)
        × Unsent e s (copy ch a b s)
        × Unsent e s (uid_copy ch a b s)
        × Unsent e s (search ch a s)
        × Unsent e s (uid_search ch a s)
        × Unsent e s (append a b s)
  unfolding noop logout rename subscribe unsubscribe capabilities check close list lsub get_quota
      get_quota_root get_metadata id id_nil fetch uid_fetch expunge uid_expunge store uid_store copy
      uid_copy search uid_search append
  write_fault_reported ch e a b c reference_name mailbox_pattern identification asked s h = (
    run_command-Unsent e _ _ s h,
    checked-Unsent ch e _ s h,
    checked-Unsent ch e _ s h,
    checked-Unsent ch e _ s h,
    checked-Unsent ch e _ s h,
    run_command-Unsent e _ _ s h,
    checked-Unsent ch e _ s h,
    checked-Unsent ch e _ s h,
    run_command-Unsent e _ _ s h,
    run_command-Unsent e _ _ s h,
    run_command-Unsent e _ _ s h,
    run_command-Unsent e _ _ s h,
    run_command-Unsent e _ _ s h,
    run_command-Unsent e _ _ s h,
    run_command-Unsent e _ _ s h,
    run_command-Unsent e _ _ s h,
    run_command-Unsent e _ _ s h,
    run_command-Unsent e _ _ s h,
    run_command-Unsent e _ _ s h,
    run_command-Unsent e _ _ s h,
    run_command-Unsent e _ _ s h,
    checked-Unsent ch e _ s h,
    checked-Unsent ch e _ s h,
    run_command-Unsent e _ _ s h,
    run_command-Unsent e _ _ s h,
    run_command-Unsent e _ _ s h,
  )
