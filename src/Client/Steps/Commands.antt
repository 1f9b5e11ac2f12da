-- ===== src/Client/Steps/Commands.antt =====
-- Every command of `Session` in src/client.rs draws at most one tag, writes and reads in order, and
-- keeps the channel open.
use async_imap.Base.{ℕ, refl, arith, Option, none, some, List}
use async_imap.Base.Text.{Bytes, codes}
use async_imap.Channel.{Channel, ChannelLaws}
use async_imap.Client.Connection.{Sent}
use async_imap.Client.Mailboxes
use async_imap.Client.Messages
use async_imap.Client.Messages.{append_after, append_to, send_content, transpose}
use async_imap.Client.Steps.Keeps.{
  Keeps, Keeps-lift, Keeps-reading, Keeps-streaming, Keeps-bind, Keeps-before, Keeps-put,
  Keeps-run_command, Keeps-run_command_and_check_ok, Keeps-read_response,
}
use async_imap.Client.Quote.{validate_str}
use async_imap.Error.{IoResult}
use async_imap.Error.Calm.{IsCalm, IsCalm-ok, IsCalm-err}
use async_imap.Parse.{Item}
use async_imap.Parse.Mailbox.Taken.{parse_mailbox-Reads, parse_status-Reads}
use async_imap.Parse.Readers.Taken.{
  parse_names-Taken, parse_fetches-Taken, parse_expunge-Taken, parse_capabilities-Reads,
  parse_noop-Reads, parse_ids-Reads, parse_metadata-Reads, parse_id-Reads, parse_get_quota-Reads,
  parse_get_quota_root-Reads,
}
use async_imap.Proto.{Response}

validate_str-IsCalm : (text : Bytes) → IsCalm (validate_str text)
unfolding validate_str
validate_str-IsCalm text = record { no_panic = ground arith }

transpose-IsCalm : (last : Option Item) → IsCalm (transpose last)
unfolding transpose
transpose-IsCalm (some (IoResult.err e)) = IsCalm-err
transpose-IsCalm (some (IoResult.ok r)) = IsCalm-ok
transpose-IsCalm none = IsCalm-ok

-- How each command is put together.
ruleset builders = (
  validate_str-IsCalm, Keeps-lift, Keeps-before, Keeps-bind, Keeps-reading, Keeps-streaming,
  Keeps-run_command, Keeps-run_command_and_check_ok,
)

-- What each reader does.
ruleset readers = (
  parse_mailbox-Reads, parse_status-Reads, parse_names-Taken, parse_fetches-Taken,
  parse_expunge-Taken, parse_capabilities-Reads, parse_noop-Reads, parse_ids-Reads,
  parse_metadata-Reads, parse_id-Reads, parse_get_quota-Reads, parse_get_quota_root-Reads,
)

module _ {C : Type 0} {ch : Channel C} (laws : ChannelLaws ch) where
  pub select-Keeps : (name : Bytes) → Keeps laws 1 (Mailboxes.select ch name)
  unfolding Mailboxes.select
  select-Keeps name = search (builders, readers)

  pub select_condstore-Keeps : (name : Bytes) → Keeps laws 1 (Mailboxes.select_condstore ch name)
  unfolding Mailboxes.select_condstore
  select_condstore-Keeps name = search (builders, readers)

  pub examine-Keeps : (name : Bytes) → Keeps laws 1 (Mailboxes.examine ch name)
  unfolding Mailboxes.examine
  examine-Keeps name = search (builders, readers)

  pub create-Keeps : (name : Bytes) → Keeps laws 1 (Mailboxes.create ch name)
  unfolding Mailboxes.create
  create-Keeps name = search (builders, readers)

  pub delete-Keeps : (name : Bytes) → Keeps laws 1 (Mailboxes.delete ch name)
  unfolding Mailboxes.delete
  delete-Keeps name = search (builders, readers)

  pub subscribe-Keeps : (name : Bytes) → Keeps laws 1 (Mailboxes.subscribe ch name)
  unfolding Mailboxes.subscribe
  subscribe-Keeps name = search (builders, readers)

  pub unsubscribe-Keeps : (name : Bytes) → Keeps laws 1 (Mailboxes.unsubscribe ch name)
  unfolding Mailboxes.unsubscribe
  unsubscribe-Keeps name = search (builders, readers)

  pub get_quota-Keeps : (name : Bytes) → Keeps laws 1 (Mailboxes.get_quota ch name)
  unfolding Mailboxes.get_quota
  get_quota-Keeps name = search (builders, readers)

  pub get_quota_root-Keeps : (name : Bytes) → Keeps laws 1 (Mailboxes.get_quota_root ch name)
  unfolding Mailboxes.get_quota_root
  get_quota_root-Keeps name = search (builders, readers)

  pub noop-Keeps : Keeps laws 1 (Mailboxes.noop ch)
  unfolding Mailboxes.noop
  noop-Keeps = search (builders, readers)

  pub logout-Keeps : Keeps laws 1 (Mailboxes.logout ch)
  unfolding Mailboxes.logout
  logout-Keeps = search (builders, readers)

  pub capabilities-Keeps : Keeps laws 1 (Mailboxes.capabilities ch)
  unfolding Mailboxes.capabilities
  capabilities-Keeps = search (builders, readers)

  pub check-Keeps : Keeps laws 1 (Mailboxes.check ch)
  unfolding Mailboxes.check
  check-Keeps = search (builders, readers)

  pub close-Keeps : Keeps laws 1 (Mailboxes.close ch)
  unfolding Mailboxes.close
  close-Keeps = search (builders, readers)

  pub id_nil-Keeps : Keeps laws 1 (Mailboxes.id_nil ch)
  unfolding Mailboxes.id_nil
  id_nil-Keeps = search (builders, readers)

  pub rename-Keeps : (from to : Bytes) → Keeps laws 1 (Mailboxes.rename ch from to)
  unfolding Mailboxes.rename
  rename-Keeps from to = search (builders, readers)

  pub list-Keeps :
      (reference pattern : Option Bytes) (asked : ℕ)
      → Keeps laws 1 (Mailboxes.list ch reference pattern asked)
  unfolding Mailboxes.list
  list-Keeps reference pattern asked = search (builders, readers)

  pub lsub-Keeps :
      (reference pattern : Option Bytes) (asked : ℕ)
      → Keeps laws 1 (Mailboxes.lsub ch reference pattern asked)
  unfolding Mailboxes.lsub
  lsub-Keeps reference pattern asked = search (builders, readers)

  pub status-Keeps : (name data_items : Bytes) → Keeps laws 1 (Mailboxes.status ch name data_items)
  unfolding Mailboxes.status
  status-Keeps name data_items = search (builders, readers)

  pub get_metadata-Keeps :
      (name options entry : Bytes) → Keeps laws 1 (Mailboxes.get_metadata ch name options entry)
  unfolding Mailboxes.get_metadata
  get_metadata-Keeps name options entry = search (builders, readers)

  pub id-Keeps :
      (identification : List (Bytes × Option Bytes)) → Keeps laws 1 (Mailboxes.id ch identification)
  unfolding Mailboxes.id
  id-Keeps identification = search (builders, readers)

  pub fetch-Keeps :
      (set query : Bytes) (asked : ℕ) → Keeps laws 1 (Messages.fetch ch set query asked)
  unfolding Messages.fetch
  fetch-Keeps set query asked = search (builders, readers)

  pub uid_fetch-Keeps :
      (set query : Bytes) (asked : ℕ) → Keeps laws 1 (Messages.uid_fetch ch set query asked)
  unfolding Messages.uid_fetch
  uid_fetch-Keeps set query asked = search (builders, readers)

  pub store-Keeps :
      (set query : Bytes) (asked : ℕ) → Keeps laws 1 (Messages.store ch set query asked)
  unfolding Messages.store
  store-Keeps set query asked = search (builders, readers)

  pub uid_store-Keeps :
      (set query : Bytes) (asked : ℕ) → Keeps laws 1 (Messages.uid_store ch set query asked)
  unfolding Messages.uid_store
  uid_store-Keeps set query asked = search (builders, readers)

  pub expunge-Keeps : (asked : ℕ) → Keeps laws 1 (Messages.expunge ch asked)
  unfolding Messages.expunge
  expunge-Keeps asked = search (builders, readers)

  pub uid_expunge-Keeps :
      (set : Bytes) (asked : ℕ) → Keeps laws 1 (Messages.uid_expunge ch set asked)
  unfolding Messages.uid_expunge
  uid_expunge-Keeps set asked = search (builders, readers)

  pub copy-Keeps : (set name : Bytes) → Keeps laws 1 (Messages.copy ch set name)
  unfolding Messages.copy
  copy-Keeps set name = search (builders, readers)

  pub uid_copy-Keeps : (set name : Bytes) → Keeps laws 1 (Messages.uid_copy ch set name)
  unfolding Messages.uid_copy
  uid_copy-Keeps set name = search (builders, readers)

  pub mv-Keeps : (set name : Bytes) → Keeps laws 1 (Messages.mv ch set name)
  unfolding Messages.mv
  mv-Keeps set name = search (builders, readers)

  pub uid_mv-Keeps : (set name : Bytes) → Keeps laws 1 (Messages.uid_mv ch set name)
  unfolding Messages.uid_mv
  uid_mv-Keeps set name = search (builders, readers)

  pub search-Keeps : (query : Bytes) → Keeps laws 1 (Messages.search ch query)
  unfolding Messages.search
  search-Keeps query = search (builders, readers)

  pub uid_search-Keeps : (query : Bytes) → Keeps laws 1 (Messages.uid_search ch query)
  unfolding Messages.uid_search
  uid_search-Keeps query = search (builders, readers)

  send_content-Keeps : (content : Bytes) → Keeps laws 0 (send_content content)
  unfolding send_content
  send_content-Keeps content = Keeps-bind laws _ _ (Keeps-put laws (Sent.raw content) refl) (λ _.
      Keeps-bind laws _ _ (Keeps-put laws (Sent.raw (codes "\r\n")) refl) (λ _.
        Keeps-bind laws _ _ (Keeps-put laws Sent.flushed refl) (λ _.
          Keeps-bind laws _ _ (Keeps-read_response laws)
            (λ last. Keeps-lift laws _ (transpose-IsCalm last)))))

  append_to-Keeps : (content : Bytes) (x : Response) → Keeps laws 0 (append_to content x)
  unfolding append_to
  append_to-Keeps content (Response.continue _ _) = send_content-Keeps content
  append_to-Keeps content _ = Keeps-lift laws _ IsCalm-err

  append_after-Keeps :
      (content : Bytes) (answer : Option Item) → Keeps laws 0 (append_after content answer)
  unfolding append_after
  append_after-Keeps content (some (IoResult.ok r)) = append_to-Keeps content r.parsed
  append_after-Keeps content (some (IoResult.err e)) = Keeps-lift laws _ IsCalm-err
  append_after-Keeps content none = Keeps-lift laws _ IsCalm-err

  pub append-Keeps : (mailbox content : Bytes) → Keeps laws 1 (Messages.append mailbox content)
  unfolding Messages.append
  append-Keeps mailbox content =
      search (Keeps-run_command, Keeps-bind, Keeps-read_response, append_after-Keeps)
