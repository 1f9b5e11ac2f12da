-- ===== src/Tests/Receiving.antt =====
-- The theorem on the receiver of a session's channel, at a session whose owner receives a message.
use async_imap.Base.{◌≡◌, refl, true, Option, none, some, List, [], ◌∷◌, ◌++◌, ◌∙◌, arith}
use async_imap.Channel.{Receiver, ReceiverLaws}
use async_imap.Client.Connection.Commands.{next_tag}
use async_imap.Client.Mailboxes
use async_imap.Client.Session
use async_imap.Client.Session.{Session}
use async_imap.Client.Steps
use async_imap.Client.Steps.{Phase, ready, session_of}
use async_imap.Client.Steps.Receiver.{Run, here, call, receive, InOrder, Run-InOrder}
use async_imap.Error.{IoResult}
use async_imap.Parse.{Item}
use async_imap.Proto.{Status, Response}
use async_imap.Tests.Support.{Queue, queue_channel, queue_laws, connection, response}
use async_imap.Types.Wire.{UnsolicitedResponse}

abbrev pop : List UnsolicitedResponse → Queue → Option (UnsolicitedResponse × Queue)
pop [] c = none
pop (m ∷ ms) c = some (m, record c { messages = ms })

abbrev queue_receiver : Receiver Queue
queue_receiver = record { recv = λ c. pop c.messages c }

popped :
    (ms : List UnsolicitedResponse) (c c' : Queue) (m : UnsolicitedResponse)
    → pop ms c ≡ some (m, c')
    → (ms ≡ m ∷ c'.messages) × (c'.capacity ≡ c.capacity) × (c'.opened ≡ c.opened)
popped [] c c' m h = absurd (ground arith)
popped (x ∷ ms) c c' m h = (ground arith, ground arith, ground arith)

receiver_laws : ReceiverLaws queue_laws queue_receiver
receiver_laws = record {
  recv_lem = λ c c' m h o. let (q, k, same) = popped c.messages c c' m h in (q, k, same ∙ o);
}

abbrev begun : Session Queue
begun = Session.new queue_channel (
    connection (
      IoResult.ok (response (Response.expunge 7))
      ∷ IoResult.ok (response (Response.done (next_tag (connection [])) Status.ok none none))
      ∷ []))

abbrev checked : Session Queue
checked = (Mailboxes.noop queue_channel begun).1

abbrev emptied : Queue
emptied = record checked.unsolicited { messages = [] }

-- `noop`, a message, and `noop` again.
one_message :
    Run queue_channel queue_receiver
      (ready begun)
      (UnsolicitedResponse.expunge 7 ∷ [])
      (ready (Mailboxes.noop queue_channel (record checked { unsolicited = emptied })).1)
unfolding Mailboxes.noop Session.run_command async_imap.Client.Connection.run_command Session.new
    async_imap.Parse.Readers.parse_noop async_imap.Parse.while_filtered async_imap.Parse.filter_sync
    async_imap.Parse.handle_unilateral async_imap.Base.Text.equal
    async_imap.Types.IdGenerator.next_id async_imap.Types.IdGenerator.tag_of
    async_imap.Parse.message_of
one_message =
    call (receive (UnsolicitedResponse.expunge 7) emptied (call here (Steps.noop begun)) refl)
      (Steps.noop (record checked { unsolicited = emptied }))

opened : queue_laws.is_open begun.unsolicited ≡ true
unfolding Session.new
opened = refl

Run-InOrder_example :
    InOrder queue_laws receiver_laws begun
      (UnsolicitedResponse.expunge 7 ∷ [])
      (Mailboxes.noop queue_channel (record checked { unsolicited = emptied })).1
Run-InOrder_example = Run-InOrder queue_laws receiver_laws one_message opened
