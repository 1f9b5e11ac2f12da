-- ===== src/Client/Messages.antt =====
-- The commands of `Session` in src/client.rs on messages.
pub mod Append
pub mod Streamed
pub mod Searched
use async_imap.Base.{ℕ, Option, none, some, List, ◌++◌, length}
use async_imap.Base.Decimal.{decimal}
use async_imap.Base.Text.{Bytes, codes}
use async_imap.Channel.{Channel}
use async_imap.Client.Connection.{Sent, put}
use async_imap.Client.Exec.{Exec, ◌>>=◌, ◌>>◌, lift}
use async_imap.Client.Quote.{validate_str}
use async_imap.Client.Session.{
  Session, run_command, run_command_and_check_ok, read_response, reading, streaming, on_conn,
}
use async_imap.Error.{Error, IoResult, Outcome, ok, err}
use async_imap.Parse.{Item}
use async_imap.Parse.Readers.{parse_fetches, parse_expunge, parse_ids}
use async_imap.Proto.{Response}
use async_imap.Types.Fetch.{Fetch}

module _ {C : Type 0} (ch : Channel C) where
  -- A call that returns a stream takes, last, how many of its items its caller reads.
  unfoldable pub fetch : Bytes → Bytes → ℕ → Exec (Session C) (List (Outcome Fetch))
  fetch sequence_set query asked = do
    id ← run_command (codes "FETCH " ++ (sequence_set ++ (codes " " ++ query)))
    streaming (parse_fetches ch id asked)

  unfoldable pub uid_fetch : Bytes → Bytes → ℕ → Exec (Session C) (List (Outcome Fetch))
  uid_fetch uid_set query asked = do
    id ← run_command (codes "UID FETCH " ++ (uid_set ++ (codes " " ++ query)))
    streaming (parse_fetches ch id asked)

  unfoldable pub expunge : ℕ → Exec (Session C) (List (Outcome ℕ))
  expunge asked = do id ← run_command (codes "EXPUNGE"); streaming (parse_expunge ch id asked)

  unfoldable pub uid_expunge : Bytes → ℕ → Exec (Session C) (List (Outcome ℕ))
  uid_expunge uid_set asked = do
    id ← run_command (codes "UID EXPUNGE " ++ uid_set)
    streaming (parse_expunge ch id asked)

  unfoldable pub store : Bytes → Bytes → ℕ → Exec (Session C) (List (Outcome Fetch))
  store sequence_set query asked = do
    id ← run_command (codes "STORE " ++ (sequence_set ++ (codes " " ++ query)))
    streaming (parse_fetches ch id asked)

  unfoldable pub uid_store : Bytes → Bytes → ℕ → Exec (Session C) (List (Outcome Fetch))
  uid_store uid_set query asked = do
    id ← run_command (codes "UID STORE " ++ (uid_set ++ (codes " " ++ query)))
    streaming (parse_fetches ch id asked)

  unfoldable pub copy : Bytes → Bytes → Exec (Session C) (Unit {0})
  copy sequence_set mailbox_name =
      run_command_and_check_ok ch (codes "COPY " ++ (sequence_set ++ (codes " " ++ mailbox_name)))

  unfoldable pub uid_copy : Bytes → Bytes → Exec (Session C) (Unit {0})
  uid_copy uid_set mailbox_name =
      run_command_and_check_ok ch (codes "UID COPY " ++ (uid_set ++ (codes " " ++ mailbox_name)))

  unfoldable pub mv : Bytes → Bytes → Exec (Session C) (Unit {0})
  mv sequence_set mailbox_name = do
    quoted ← lift (validate_str mailbox_name)
    run_command_and_check_ok ch (codes "MOVE " ++ (sequence_set ++ (codes " " ++ quoted)))

  unfoldable pub uid_mv : Bytes → Bytes → Exec (Session C) (Unit {0})
  uid_mv uid_set mailbox_name = do
    quoted ← lift (validate_str mailbox_name)
    run_command_and_check_ok ch (codes "UID MOVE " ++ (uid_set ++ (codes " " ++ quoted)))

  unfoldable pub search : Bytes → Exec (Session C) (List ℕ)
  search query = do id ← run_command (codes "SEARCH " ++ query); reading (parse_ids ch id)

  unfoldable pub uid_search : Bytes → Exec (Session C) (List ℕ)
  uid_search query = do id ← run_command (codes "UID SEARCH " ++ query); reading (parse_ids ch id)

-- `self.read_response().await.transpose()?`
unfoldable pub transpose : Option Item → Outcome (Unit {0})
transpose (some (IoResult.err e)) = err (Error.io e)
transpose _ = ok tt

unfoldable pub append_command : Bytes → Bytes → Bytes
append_command mailbox content =
    codes "APPEND \"" ++ (mailbox ++ (codes "\" {" ++ (decimal (length content) ++ codes "}")))

module _ {C : Type 0} where
  unfoldable pub send_content : Bytes → Exec (Session C) (Unit {0})
  unfolding transpose
  send_content content = do
    on_conn (put (Sent.raw content))
    on_conn (put (Sent.raw (codes "\r\n")))
    on_conn (put Sent.flushed)
    last ← read_response
    lift (transpose last)

  unfoldable pub append_to : Bytes → Response → Exec (Session C) (Unit {0})
  unfolding send_content
  append_to content (Response.continue _ _) = send_content content
  append_to content _ = lift (err Error.append)

  unfoldable pub append_after : Bytes → Option Item → Exec (Session C) (Unit {0})
  unfolding append_to
  append_after content (some (IoResult.ok res)) = append_to content res.parsed
  append_after content (some (IoResult.err e)) = lift (err (Error.io e))
  append_after content none = lift (err Error.append)

  unfoldable pub append : Bytes → Bytes → Exec (Session C) (Unit {0})
  unfolding append_after append_command
  append mailbox content = do
    run_command (append_command mailbox content)
    answer ← read_response
    append_after content answer
