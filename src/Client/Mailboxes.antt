-- ===== src/Client/Mailboxes.antt =====
-- The commands of `Session` in src/client.rs on mailboxes and on the session.
pub mod Answered
pub mod Guards
pub mod Unchecked
pub mod Selected
use async_imap.Base.{ℕ, Option, none, some, List, ◌++◌, [], length, ◌==◌, if◌then◌else◌}
use async_imap.Base.Text.{Bytes, codes}
use async_imap.Channel.{Channel}
use async_imap.Client.Exec.{Exec, ◌>>=◌, lift}
use async_imap.Client.Quote.{quote, validate_str, format_identification}
use async_imap.Client.Session.{Session, run_command, run_command_and_check_ok, reading, streaming}
use async_imap.Error.{Outcome}
use async_imap.Parse.Mailbox.{parse_mailbox, parse_status}
use async_imap.Parse.Readers.{
  parse_names, parse_capabilities, parse_noop, parse_metadata, parse_id, parse_get_quota,
  parse_get_quota_root,
}
use async_imap.Proto.{Metadata}
use async_imap.Types.Capabilities.{Capabilities}
use async_imap.Types.Mailbox.{Mailbox}
use async_imap.Types.Quota.{Quota, QuotaRoot}
use async_imap.Types.Wire.{Name}

abbrev pub or_text : Option Bytes → Bytes → Bytes
or_text (some text) default = text
or_text none default = default

module _ {C : Type 0} (ch : Channel C) where
  unfoldable pub select : Bytes → Exec (Session C) Mailbox
  select mailbox_name = do
    quoted ← lift (validate_str mailbox_name)
    id ← run_command (codes "SELECT " ++ quoted)
    reading (parse_mailbox ch id)

  unfoldable pub select_condstore : Bytes → Exec (Session C) Mailbox
  select_condstore mailbox_name = do
    quoted ← lift (validate_str mailbox_name)
    id ← run_command (codes "SELECT " ++ (quoted ++ codes " (CONDSTORE)"))
    reading (parse_mailbox ch id)

  unfoldable pub examine : Bytes → Exec (Session C) Mailbox
  examine mailbox_name = do
    quoted ← lift (validate_str mailbox_name)
    id ← run_command (codes "EXAMINE " ++ quoted)
    reading (parse_mailbox ch id)

  unfoldable pub noop : Exec (Session C) (Unit {0})
  noop = do id ← run_command (codes "NOOP"); reading (parse_noop ch id)

  unfoldable pub logout : Exec (Session C) (Unit {0})
  logout = run_command_and_check_ok ch (codes "LOGOUT")

  unfoldable pub create : Bytes → Exec (Session C) (Unit {0})
  create mailbox_name = do
    quoted ← lift (validate_str mailbox_name)
    run_command_and_check_ok ch (codes "CREATE " ++ quoted)

  unfoldable pub delete : Bytes → Exec (Session C) (Unit {0})
  delete mailbox_name = do
    quoted ← lift (validate_str mailbox_name)
    run_command_and_check_ok ch (codes "DELETE " ++ quoted)

  unfoldable pub rename : Bytes → Bytes → Exec (Session C) (Unit {0})
  rename from to =
      run_command_and_check_ok ch (codes "RENAME " ++ (quote from ++ (codes " " ++ quote to)))

  unfoldable pub subscribe : Bytes → Exec (Session C) (Unit {0})
  subscribe mailbox = run_command_and_check_ok ch (codes "SUBSCRIBE " ++ quote mailbox)

  unfoldable pub unsubscribe : Bytes → Exec (Session C) (Unit {0})
  unsubscribe mailbox = run_command_and_check_ok ch (codes "UNSUBSCRIBE " ++ quote mailbox)

  unfoldable pub capabilities : Exec (Session C) Capabilities
  capabilities = do id ← run_command (codes "CAPABILITY"); reading (parse_capabilities ch id)

  unfoldable pub check : Exec (Session C) (Unit {0})
  check = run_command_and_check_ok ch (codes "CHECK")

  unfoldable pub close : Exec (Session C) (Unit {0})
  close = run_command_and_check_ok ch (codes "CLOSE")

  -- A call that returns a stream takes, last, how many of its items its caller reads.
  unfoldable pub list : Option Bytes → Option Bytes → ℕ → Exec (Session C) (List (Outcome Name))
  list reference_name mailbox_pattern asked = do
    id ← run_command (
        codes "LIST "
        ++ (quote (or_text reference_name [])
            ++ (codes " " ++ or_text mailbox_pattern (codes "\"\""))))
    streaming (parse_names ch id asked)

  unfoldable pub lsub : Option Bytes → Option Bytes → ℕ → Exec (Session C) (List (Outcome Name))
  lsub reference_name mailbox_pattern asked = do
    id ← run_command (
        codes "LSUB "
        ++ (quote (or_text reference_name []) ++ (codes " " ++ or_text mailbox_pattern [])))
    streaming (parse_names ch id asked)

  unfoldable pub status : Bytes → Bytes → Exec (Session C) Mailbox
  status mailbox_name data_items = do
    quoted ← lift (validate_str mailbox_name)
    id ← run_command (codes "STATUS " ++ (quoted ++ (codes " " ++ data_items)))
    reading (parse_status ch mailbox_name id)

  unfoldable pub get_quota : Bytes → Exec (Session C) Quota
  get_quota quota_root = do
    id ← run_command (codes "GETQUOTA " ++ quote quota_root)
    reading (parse_get_quota ch id)

  unfoldable pub get_quota_root : Bytes → Exec (Session C) (List QuotaRoot × List Quota)
  get_quota_root mailbox_name = do
    id ← run_command (codes "GETQUOTAROOT " ++ quote mailbox_name)
    reading (parse_get_quota_root ch id)

  unfoldable pub get_metadata : Bytes → Bytes → Bytes → Exec (Session C) (List Metadata)
  get_metadata mailbox_name options entry_specifier = do
    let options' = if length options == 0 then [] else codes " " ++ options
    id ← run_command (
        codes "GETMETADATA "
        ++ (quote mailbox_name ++ (codes " " ++ (options' ++ entry_specifier))))
    reading (parse_metadata ch mailbox_name id)

  unfoldable pub id : List (Bytes × Option Bytes) → Exec (Session C) (Option (List (Bytes × Bytes)))
  id identification = do
    tag ← run_command (codes "ID (" ++ (format_identification identification ++ codes ")"))
    reading (parse_id ch tag)

  unfoldable pub id_nil : Exec (Session C) (Option (List (Bytes × Bytes)))
  id_nil = do tag ← run_command (codes "ID NIL"); reading (parse_id ch tag)
