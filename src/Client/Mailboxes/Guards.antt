-- ===== src/Client/Mailboxes/Guards.antt =====
-- The commands of src/client.rs that check the mailbox name they are given.
use async_imap.Base.{◌≡◌, refl, true}
use async_imap.Base.Text.{Bytes}
use async_imap.Channel.{Channel}
use async_imap.Client.Mailboxes.{select, select_condstore, examine, create, delete, status}
use async_imap.Client.Messages.{mv, uid_mv}
use async_imap.Client.Quote.LineEnds.{has_line_end, line_end_error, validate_str-line_end}
use async_imap.Client.Session.{Session}
use async_imap.Error.{err}

module _ {C : Type 0} (ch : Channel C) where
  -- A mailbox name with a line feed or a carriage return makes `select`, `select_condstore`, `examine`,
  -- `create`, `delete`, `status`, `mv` and `uid_mv` fail with the validation error, and the session is
  -- left as it was: nothing is written, no tag is used up, and no response is taken.
  pub line_end_refused :
      (name set items : Bytes) (s : Session C)
      → has_line_end name ≡ true
      → (select ch name s ≡ (err (line_end_error name), s))
        × (select_condstore ch name s ≡ (err (line_end_error name), s))
        × (examine ch name s ≡ (err (line_end_error name), s))
        × (create ch name s ≡ (err (line_end_error name), s))
        × (delete ch name s ≡ (err (line_end_error name), s))
        × (status ch name items s ≡ (err (line_end_error name), s))
        × (mv ch set name s ≡ (err (line_end_error name), s))
        × (uid_mv ch set name s ≡ (err (line_end_error name), s))
  unfolding select select_condstore examine create delete status mv uid_mv
  line_end_refused name set items s h =
      let refused = validate_str-line_end name h in
      (
        rw refused refl,
        rw refused refl,
        rw refused refl,
        rw refused refl,
        rw refused refl,
        rw refused refl,
        rw refused refl,
        rw refused refl,
      )
