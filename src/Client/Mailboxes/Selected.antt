-- ===== src/Client/Mailboxes/Selected.antt =====
-- `select` and `examine` of src/client.rs as a whole.
use async_imap.Base.{◌≡◌, refl, ◌∙◌, ap, true, false, List, [], ◌++◌, map, filter_map}
use async_imap.Base.Text.{Bytes, codes}
use async_imap.Channel.{Channel, ChannelLaws}
use async_imap.Client.Connection.Commands.{next_tag, issued, awaiting, run_command_lem}
use async_imap.Client.Mailboxes.{select, examine}
use async_imap.Client.Quote.{quote}
use async_imap.Client.Quote.LineEnds.{has_line_end, validate_str-fine}
use async_imap.Client.Session.{Session, run_command}
use async_imap.Error.{Outcome, IoResult}
use async_imap.Parse.Mailbox.{parse_mailbox}
use async_imap.Parse.Mailbox.Fields.{Describes}
use async_imap.Parse.Mailbox.Laws.{
  AllOpening, Verdict, verdict_items, verdict_rest, verdict_outcome, IsVerdict, offered,
  parse_mailbox_lem,
}
use async_imap.Parse.Received.{Received}
use async_imap.Types.Mailbox.{Mailbox}
use async_imap.Types.Wire.{ResponseData}

module _ {C : Type 0} {ch : Channel C} (laws : ChannelLaws ch) where
  -- The run `r` of a command from session `s`: it has sent the line `command`, and has read the reply
  -- up to its verdict.
  pub record Opened (command : Bytes) (s : Session C) (before : List ResponseData) (v : Verdict)
      (r : Outcome Mailbox × Session C) : Type 0 where
    pub mailbox : Mailbox
    pub describes : Describes (map (λ r. r.parsed) before) mailbox
    pub result_is : r.0 ≡ verdict_outcome mailbox v
    pub conn_is : r.1.conn ≡ awaiting (verdict_rest v) (issued command s.conn)
    pub received : Received laws s.unsolicited (filter_map offered before) r.1.unsolicited

  open_with :
      (command : Bytes) (s : Session C) (before : List ResponseData) (v : Verdict)
      → s.conn.stream.faults ≡ []
      → s.conn.stream.incoming ≡ map IoResult.ok before ++ verdict_items (next_tag s.conn) v
      → AllOpening (next_tag s.conn) before
      → IsVerdict v
      → laws.is_open s.unsolicited ≡ true
      → (r : Outcome Mailbox × Session C)
      → r ≡ (
          let (o, feed) =
            parse_mailbox ch
              (next_tag s.conn)
              (map IoResult.ok before ++ verdict_items (next_tag s.conn) v)
              s.unsolicited in
          (
            o,
            record {
              conn = awaiting feed.incoming (issued command s.conn);
              unsolicited = feed.chan;
            },
          ))
      → Opened command s before v r
  open_with command s before v f i a h o r e =
      let (mbox, d, ran) = parse_mailbox_lem laws (next_tag s.conn) before v s.unsolicited a h o in
      record {
        mailbox = mbox;
        describes = d;
        result_is = ap (λ r. r.0) e ∙ ran.result_is;
        conn_is = ap (λ r. r.1.conn) e ∙ ap (λ t. awaiting t (issued command s.conn)) ran.rest_is;
        received = rw (ap (λ r. r.1.unsolicited) e) ran.received;
      }

  -- For a mailbox name without a line end, on a session whose writes succeed and whose channel is open,
  -- `select` and `examine` send `SELECT` and `EXAMINE` with the quoted name and a fresh tag, and return
  -- the mailbox that the server describes, or the error of its verdict; the other responses are offered
  -- to the channel, in order, and what follows the verdict stays in the stream.
  pub select-Opened :
      (name : Bytes) (s : Session C) (before : List ResponseData) (v : Verdict)
      → has_line_end name ≡ false
      → s.conn.stream.faults ≡ []
      → s.conn.stream.incoming ≡ map IoResult.ok before ++ verdict_items (next_tag s.conn) v
      → AllOpening (next_tag s.conn) before
      → IsVerdict v
      → laws.is_open s.unsolicited ≡ true
      → Opened (codes "SELECT " ++ quote name) s before v (select ch name s)
        × Opened (codes "EXAMINE " ++ quote name) s before v (examine ch name s)
  unfolding select examine run_command
  select-Opened name s before v n f i a h o = (
    open_with _ s before v f i a h o _ (
        rw (validate_str-fine name n, run_command_lem (codes "SELECT " ++ quote name) s.conn f, i)
          refl),
    open_with _ s before v f i a h o _ (
        rw (validate_str-fine name n, run_command_lem (codes "EXAMINE " ++ quote name) s.conn f, i)
          refl),
  )
