-- ===== src/Client/Mailboxes/Answered.antt =====
-- `capabilities`, `status` and `get_quota` of src/client.rs over a whole reply.
use async_imap.Base.{
  ◌≡◌, sym, Option, true, false, none, List, [], ◌++◌, map, filter_map, flatten, last_or,
}
use async_imap.Base.Text.{Bytes, codes}
use async_imap.Channel.{Channel, ChannelLaws}
use async_imap.Client.Connection.Commands.{next_tag}
use async_imap.Client.Mailboxes.{status, get_quota}
use async_imap.Client.Quote.{quote}
use async_imap.Client.Quote.LineEnds.{has_line_end, validate_str-fine}
use async_imap.Client.Session.{Session}
use async_imap.Client.Session.Exchanged.{Exchanged, exchange}
use async_imap.Error.{IoResult}
use async_imap.Parse.Loop.{Ending, ending_items, ending_rest, Ends, Within}
use async_imap.Parse.Mailbox.{parse_status}
use async_imap.Parse.Mailbox.Answers.{EndsStatus, parse_status_lem}
use async_imap.Parse.Mailbox.Reports.{attributes_in, Shows}
use async_imap.Parse.Mailbox.Laws.{Verdict, verdict_items, verdict_rest, verdict_outcome}
use async_imap.Parse.Readers.{parse_get_quota}
use async_imap.Parse.Readers.Quotas.{quota_in, quota_result, parse_get_quota_lem}
use async_imap.Parse.Readers.Reported.{IsReported, sent_in, leftovers-sent_in, last_or-IsReported}
use async_imap.Parse.Received.{leftovers}
use async_imap.Types.Capabilities.{Capabilities}
use async_imap.Types.Mailbox.{Mailbox}
use async_imap.Types.Quota.{Quota}
use async_imap.Types.Wire.{ResponseData}

module _ {C : Type 0} {ch : Channel C} (laws : ChannelLaws ch) where
  -- For a mailbox name without a line end, on a session whose writes succeed and whose channel is open:
  -- `status` sends its line with the quoted name and a fresh tag, and returns a mailbox with no flags
  -- and, of each kind, the last number in the `STATUS` responses for that mailbox, or the error of the
  -- status that completes the command or of the stream; the other responses are offered to the channel,
  -- in order, and what follows stays in the stream.
  pub status-Exchanged :
      (mailbox_name data_items : Bytes) (s : Session C) (before : List ResponseData) (v : Verdict)
      → has_line_end mailbox_name ≡ false
      → s.conn.stream.faults ≡ []
      → s.conn.stream.incoming ≡ map IoResult.ok before ++ verdict_items (next_tag s.conn) v
      → Within (next_tag s.conn) before
      → EndsStatus v
      → laws.is_open s.unsolicited ≡ true
      → (mbox : Mailbox) × Shows (flatten (filter_map (attributes_in mailbox_name) before)) mbox
        × Exchanged laws
            (codes "STATUS " ++ (quote mailbox_name ++ (codes " " ++ data_items)))
            s
            (verdict_outcome mbox v)
            (verdict_rest v)
            (leftovers (attributes_in mailbox_name) before)
            (status ch mailbox_name data_items s)
  unfolding status
  status-Exchanged mailbox_name data_items s before v n f i w e o =
      let (mbox, shown, ran) =
        parse_status_lem laws mailbox_name (next_tag s.conn) before v s.unsolicited w e o in
      (
        mbox,
        shown,
        rw (validate_str-fine mailbox_name n)
            (exchange laws _ s (λ x. x) (parse_status ch mailbox_name) f i ran),
      )

  -- On a session whose writes succeed and whose channel is open: `get_quota` sends its line with the
  -- quoted root and a fresh tag, and returns a quota with the root name of the last `QUOTA` response of
  -- the reply and with its resources, in order, each with its name, usage and limit; or the error that
  -- there is no such response, or the error of the stream that ends the reply. The other responses are
  -- offered to the channel, in order, and what follows stays in the stream.
  pub get_quota-Exchanged :
      (quota_root : Bytes) (s : Session C) (before : List ResponseData) (ending : Ending)
      → s.conn.stream.faults ≡ []
      → s.conn.stream.incoming ≡ map IoResult.ok before ++ ending_items ending
      → Within (next_tag s.conn) before
      → Ends (next_tag s.conn) ending
      → laws.is_open s.unsolicited ≡ true
      → (result : Option Quota) × IsReported (last_or none (filter_map sent_in before)) result
        × Exchanged laws
            (codes "GETQUOTA " ++ quote quota_root)
            s
            (quota_result result ending)
            (ending_rest ending)
            (leftovers sent_in before)
            (get_quota ch quota_root s)
  unfolding get_quota
  get_quota-Exchanged quota_root s before ending f i w e o = (
    last_or none (filter_map quota_in before),
    last_or-IsReported before none none tt,
    rw (sym (leftovers-sent_in before)) (
        exchange laws _ s (λ x. x) (parse_get_quota ch) f i
          (parse_get_quota_lem laws (next_tag s.conn) before ending s.unsolicited w e o)),
  )
