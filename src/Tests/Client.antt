-- ===== src/Tests/Client.antt =====
-- The theorems on src/client.rs and src/extensions at concrete sessions.
use async_imap.Base.{
  Option, none, ◌≡◌, refl, ◌∙◌, true, false, some, List, [], ◌∷◌, ◌++◌, map, if◌then◌else◌,
}
use async_imap.Base.Text.{Bytes, codes, contains}
use async_imap.Client.Connection.{check_done_ok}
use async_imap.Client.Connection.Check.{Decision, succeeded, decision_items, check_done_ok_lem}
use async_imap.Client.Connection.Commands.{next_tag, issued, awaiting}
use async_imap.Client.Mailboxes.{
  select, select_condstore, examine, create, delete, status, rename, subscribe, unsubscribe,
}
use async_imap.Client.Mailboxes.Guards.{line_end_refused}
use async_imap.Client.Mailboxes.Selected.{Opened, select-Opened}
use async_imap.Client.Mailboxes.Unchecked.{Breaks, line_end_sent}
use async_imap.Client.Messages.{mv, uid_mv}
use async_imap.Client.Quote.{quote, validate_str}
use async_imap.Client.Quote.LineEnds.{has_line_end, line_end_error}
use async_imap.Client.Quote.RoundTrip.{all_text, unquote, unquote-quote, validate_str_lem}
use async_imap.Client.Session.{Session, run_command_and_check_ok}
use async_imap.Client.Session.Checked.{run_command_and_check_ok_lem}
use async_imap.Error.{IoResult, ok, err}
use async_imap.Parse.{Item}
use async_imap.Parse.Mailbox.Laws.{Verdict, completed, verdict_items}
use async_imap.Parse.Received.{message, Received}
use async_imap.Proto.{RequestId, Status, Response, MailboxDatum}
use async_imap.Tests.Support.{
  Queue, queue_channel, queue_laws, empty_channel, connection, session, response,
}
use async_imap.Types.Wire.{ResponseData}

-- The first tag, and an untagged response.
abbrev first_tag : RequestId
first_tag = next_tag (connection [])

abbrev before : List ResponseData
before = response (Response.expunge 7) ∷ []

abbrev success : Decision
success = succeeded (codes "x") none none []

abbrev after_success : List Item
after_success = map IoResult.ok before ++ decision_items first_tag success

check_done_ok_lem_example :
    (c' : Queue) × (check_done_ok queue_channel first_tag after_success (some empty_channel)
      ≡ (ok tt, record { incoming = []; chan = some c' }))
    × Received queue_laws empty_channel (map message before) c'
check_done_ok_lem_example =
    check_done_ok_lem queue_laws first_tag before success empty_channel (tt, tt) tt refl

run_command_and_check_ok_lem_example :
    (c' : Queue) × (run_command_and_check_ok queue_channel (codes "CHECK") (session after_success)
      ≡ (
        ok tt,
        record {
          conn = awaiting [] (issued (codes "CHECK") (connection after_success));
          unsolicited = c';
        },
      ))
    × Received queue_laws empty_channel (map message before) c'
run_command_and_check_ok_lem_example =
    run_command_and_check_ok_lem queue_laws (codes "CHECK") (session after_success) before success
      refl refl (tt, tt) tt refl

abbrev broken_name : Bytes
broken_name = codes "a\r\nA1 NOOP"

breaks : has_line_end broken_name ≡ true
unfolding contains
breaks = refl

line_end_refused_example :
    (select queue_channel broken_name (session []) ≡ (err (line_end_error broken_name), session []))
    × (select_condstore queue_channel broken_name (session [])
        ≡ (err (line_end_error broken_name), session []))
    × (examine queue_channel broken_name (session [])
        ≡ (err (line_end_error broken_name), session []))
    × (create queue_channel broken_name (session [])
        ≡ (err (line_end_error broken_name), session []))
    × (delete queue_channel broken_name (session [])
        ≡ (err (line_end_error broken_name), session []))
    × (status queue_channel broken_name (codes "(MESSAGES)") (session [])
        ≡ (err (line_end_error broken_name), session []))
    × (mv queue_channel (codes "1") broken_name (session [])
        ≡ (err (line_end_error broken_name), session []))
    × (uid_mv queue_channel (codes "1") broken_name (session [])
        ≡ (err (line_end_error broken_name), session []))
line_end_refused_example =
    line_end_refused queue_channel broken_name (codes "1") (codes "(MESSAGES)") (session []) breaks

line_end_sent_example :
    Breaks broken_name
      (session [])
      (subscribe queue_channel broken_name (session [])).1.conn.stream.sent
    × Breaks broken_name
        (session [])
        (unsubscribe queue_channel broken_name (session [])).1.conn.stream.sent
    × Breaks broken_name
        (session [])
        (rename queue_channel broken_name (codes "b") (session [])).1.conn.stream.sent
    × Breaks broken_name
        (session [])
        (rename queue_channel (codes "b") broken_name (session [])).1.conn.stream.sent
line_end_sent_example = line_end_sent queue_channel broken_name (codes "b") (session []) refl breaks

abbrev inbox : Bytes
inbox = codes "in\"box"

fine : has_line_end inbox ≡ false
unfolding contains
fine = refl

abbrev opened : Verdict
opened = completed (codes "x") Status.ok none none []

abbrev existing : List ResponseData
existing = response (Response.mailbox_data (MailboxDatum.exists 5)) ∷ []

abbrev selected : Session Queue
selected = session (map IoResult.ok existing ++ verdict_items first_tag opened)

select-Opened_example :
    Opened queue_laws
      (codes "SELECT " ++ quote inbox)
      selected
      existing
      opened
      (select queue_channel inbox selected)
    × Opened queue_laws
        (codes "EXAMINE " ++ quote inbox)
        selected
        existing
        opened
        (examine queue_channel inbox selected)
select-Opened_example =
    select-Opened queue_laws inbox selected existing opened fine refl refl (tt, tt) tt refl

unquote-quote_example :
    unquote (quote inbox ++ codes " x")
    ≡ (if all_text inbox then some (inbox, codes " x") else none)
unquote-quote_example = unquote-quote inbox (codes " x")

valid : validate_str inbox ≡ ok (quote inbox)
valid = validate_str_lem inbox ∙ unfold contains in refl

abbrev identity : List (Bytes × Option Bytes)
identity = (codes "name", some (codes "a\"b")) ∷ (codes "version", none) ∷ []
