-- ===== src/Tests/Steps.antt =====
-- The theorems on stretches of work with a session of src/client.rs at concrete sessions.
use async_imap.Base.{◌≡◌, ◌≢◌, ◌≤◌, refl, true, none, some, List, [], ◌∷◌, ◌++◌, length, arith}
use async_imap.Base.Text.{codes}
use async_imap.Client.Connection
use async_imap.Client.Connection.{Sent}
use async_imap.Client.Connection.Commands.{next_tag}
use async_imap.Client.Connection.Writes.{tags}
use async_imap.Client.Idle
use async_imap.Client.Mailboxes
use async_imap.Client.Session
use async_imap.Client.Session.{Session}
use async_imap.Client.Steps
use async_imap.Client.Steps.{panicked, ended, Phase, ready, idling, session_of, Reach, here, next}
use async_imap.Client.Steps.Evolves.{Evolves}
use async_imap.Client.Steps.Laws.{Reach-Evolves, Reach-AllDistinct, Reach-new, Reach-calm}
use async_imap.Error.{IoResult}
use async_imap.Parse.{Item}
use async_imap.Proto.{Status, Response}
use async_imap.Tests.Support.{Queue, queue_channel, queue_laws, connection, response}
use async_imap.Types.IdGenerator.{next_id, tag_of}
use async_imap.Types.IdGenerator.Drawn.{AllDistinct}

-- An expunge before the answer to the first command, a continuation request for the second one.
abbrev items : List Item
items =
    IoResult.ok (response (Response.expunge 7))
    ∷ IoResult.ok (response (Response.done (next_tag (connection [])) Status.ok none none))
    ∷ IoResult.ok (response (Response.continue none none))
    ∷ []

abbrev begun : Session Queue
begun = Session.new queue_channel (connection items)

abbrev checked : Session Queue
checked = (Mailboxes.noop queue_channel begun).1

abbrev waiting : Phase Queue
waiting = idling (Idle.init queue_channel (Idle.new checked)).1

-- `noop`, then `idle` and `init`.
work : Reach queue_channel (ready begun) 3 waiting
work =
    next (next (next here (Steps.noop begun)) (Steps.idle checked)) (Steps.init (Idle.new checked))

opened : queue_laws.is_open begun.unsolicited ≡ true
unfolding Session.new
opened = refl

Reach-Evolves_example : Evolves queue_laws 3 begun (session_of waiting)
Reach-Evolves_example = Reach-Evolves queue_laws work opened

fresh : begun.conn.request_ids.next ≡ 0
unfolding Session.new
fresh = refl

Reach-AllDistinct_example :
    (wrote : List Sent) × ((session_of waiting).conn.stream.sent ≡ begun.conn.stream.sent ++ wrote)
    × AllDistinct (tags wrote)
Reach-AllDistinct_example =
    Reach-AllDistinct queue_laws work opened (omega arith) (omega (arith, fresh))

Reach-new_example :
    (queue_laws.is_open (session_of waiting).unsolicited ≡ true)
    × (queue_laws.capacity (session_of waiting).unsolicited ≡ 100)
    × (length (queue_laws.queue (session_of waiting).unsolicited) ≤ 100)
Reach-new_example = Reach-new queue_laws (connection items) work

Reach-calm_example : ended (Mailboxes.logout queue_channel checked).0 ≢ panicked
Reach-calm_example =
    Reach-calm queue_laws (connection items) (next here (Steps.noop begun)) (Steps.logout checked)

-- What is on the wire behind these calls.
two_lines :
    (session_of waiting).conn.stream.sent
    ≡ Sent.request (record { tag = some (codes "A0001"); body = codes "NOOP" })
      ∷ Sent.flushed
      ∷ Sent.request (record { tag = some (codes "A0002"); body = codes "IDLE" })
      ∷ Sent.flushed
      ∷ []
unfolding Session.new Mailboxes.noop Idle.init Idle.new Session.run_command Connection.run_command
    next_id tag_of
two_lines = refl
