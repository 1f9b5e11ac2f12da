-- ===== src/Client/Session/Exchanged.antt =====
-- A command of src/client.rs together with the reader of its reply: the line that goes out, and what the
-- session is left with.
use async_imap.Base.{◌≡◌, ap, List, []}
use async_imap.Base.Text.{Bytes}
use async_imap.Channel.{Channel, ChannelLaws}
use async_imap.Client.Connection.Commands.{next_tag, issued, awaiting, run_command_lem}
use async_imap.Client.Exec.{Exec, ◌>>=◌}
use async_imap.Client.Session.{Session, with_feed, run_command}
use async_imap.Error.{Outcome}
use async_imap.Parse.{Item, Feed}
use async_imap.Parse.Received.{Received, Ran}
use async_imap.Proto.{RequestId}
use async_imap.Types.Wire.{UnsolicitedResponse}

module _ {C : Type 0} {ch : Channel C} (laws : ChannelLaws ch) where
  -- The run `r` of a call from session `s`: it has written and flushed the line `command` with a fresh
  -- tag, and returned `result`; `rest` is still in the stream, and `ms` were offered to the channel.
  pub record Exchanged {A : Type 0} (command : Bytes) (s : Session C) (result : Outcome A)
      (rest : List Item) (ms : List UnsolicitedResponse) (r : Outcome A × Session C) : Type 0 where
    pub result_is : r.0 ≡ result
    pub conn_is : r.1.conn ≡ awaiting rest (issued command s.conn)
    pub received : Received laws s.unsolicited ms r.1.unsolicited

  -- A command, and then a reader on the stream and the channel, of whose result `finish` makes the
  -- outcome.
  abbrev pub command_and_read :
      {X A : Type 0}
      → Bytes
      → (X → Outcome A)
      → (RequestId → List Item → C → X × Feed C)
      → Exec (Session C) A
  command_and_read command finish reader = do
    id ← run_command command
    λ s.
        let (x, feed) = reader id s.conn.stream.incoming s.unsolicited in
        (finish x, with_feed s feed)

  pub exchange :
      {X A : Type 0} (command : Bytes) (s : Session C) (finish : X → Outcome A)
      (reader : RequestId → List Item → C → X × Feed C) {items : List Item} {result : X}
      {rest : List Item} {ms : List UnsolicitedResponse}
      → s.conn.stream.faults ≡ []
      → s.conn.stream.incoming ≡ items
      → Ran laws s.unsolicited (reader (next_tag s.conn) items s.unsolicited) result rest ms
      → Exchanged command s (finish result) rest ms (command_and_read command finish reader s)
  unfolding run_command
  exchange command s finish reader f i ran =
      rw (run_command_lem command s.conn f, i)
        (record {
          result_is = ap finish ran.result_is;
          conn_is = ap (λ t. awaiting t (issued command s.conn)) ran.rest_is;
          received = ran.received;
        })
