-- ===== src/Client/Mailboxes/Unchecked.antt =====
-- The commands of src/client.rs that quote a mailbox name without a check of it.
use async_imap.Base.{◌≡◌, refl, true, some, List, [], ◌∷◌, ◌++◌, arith, append-nil, append_assoc}
use async_imap.Base.Text.{Bytes, codes}
use async_imap.Channel.{Channel}
use async_imap.Client.Connection
use async_imap.Client.Connection.{Sent}
use async_imap.Client.Connection.Commands.{next_tag, issued, run_command_lem}
use async_imap.Client.Mailboxes.{rename, subscribe, unsubscribe}
use async_imap.Client.Quote.LineEnds.{has_line_end}
use async_imap.Client.Quote.{quote}
use async_imap.Client.Quote.RoundTrip.{contains-quote}
use async_imap.Client.Session.{Session, run_command_and_check_ok}

-- A line end in the argument stands in the quoted form too.
quote-line_end : (name : Bytes) → has_line_end name ≡ true → has_line_end (quote name) ≡ true
quote-line_end name h = ground (
  arith,
  contains-quote b'\n' name (omega arith) (omega arith),
  contains-quote b'\r' name (omega arith) (omega arith),
)

-- The one line that a command put on the wire has the quoted form of the name in it, with a line end.
abbrev pub Breaks : {C : Type 0} → Bytes → Session C → List Sent → Type 0
Breaks name s sent =
    (before : Bytes) × (behind : Bytes) × (sent
      ≡ s.conn.stream.sent
        ++ Sent.request
            (record { tag = some (next_tag s.conn); body = before ++ (quote name ++ behind) })
          ∷ Sent.flushed
          ∷ [])
    × (has_line_end (quote name) ≡ true)

module _ {C : Type 0} (ch : Channel C) where
  checked_sends :
      (command : Bytes) (s : Session C)
      → s.conn.stream.faults ≡ []
      → (run_command_and_check_ok ch command s).1.conn.stream.sent
        ≡ (issued command s.conn).stream.sent
  unfolding run_command_and_check_ok Connection.run_command_and_check_ok
  checked_sends command s f = rw (run_command_lem command s.conn f) refl

  breaks :
      (name before behind command : Bytes) (s : Session C)
      → s.conn.stream.faults ≡ []
      → has_line_end name ≡ true
      → command ≡ before ++ (quote name ++ behind)
      → Breaks name s (run_command_and_check_ok ch command s).1.conn.stream.sent
  breaks name before behind command s f h e =
      (before, behind, rw e (checked_sends _ s f), quote-line_end name h)

  -- Where the writes succeed, `subscribe`, `unsubscribe` and `rename`, for each of its names, send a
  -- mailbox name that has a line feed or a carriage return in its quoted form only, with the line end in
  -- it, so that the line on the wire ends in the middle of the name.
  pub line_end_sent :
      (name other : Bytes) (s : Session C)
      → s.conn.stream.faults ≡ []
      → has_line_end name ≡ true
      → Breaks name s (subscribe ch name s).1.conn.stream.sent
        × Breaks name s (unsubscribe ch name s).1.conn.stream.sent
        × Breaks name s (rename ch name other s).1.conn.stream.sent
        × Breaks name s (rename ch other name s).1.conn.stream.sent
  unfolding subscribe unsubscribe rename
  line_end_sent name other s f h = (
    breaks name (codes "SUBSCRIBE ") [] _ s f h (rw append-nil refl),
    breaks name (codes "UNSUBSCRIBE ") [] _ s f h (rw append-nil refl),
    breaks name (codes "RENAME ") (codes " " ++ quote other) _ s f h refl,
    breaks name (codes "RENAME " ++ (quote other ++ codes " ")) [] _ s f h
        (rw (append-nil, append_assoc) refl),
  )
