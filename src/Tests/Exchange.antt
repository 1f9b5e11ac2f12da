-- ===== src/Tests/Exchange.antt =====
-- The theorems on login, idling and `append` at concrete exchanges.
use async_imap.Base.{
  ℕ, ◌+◌, ◌≡◌, ◌≢◌, refl, true, false, none, some, List, [], ◌∷◌, ◌++◌, map, filter_map, arith,
  ◌||◌,
}
use async_imap.Base.Text.{Bytes, codes, contains}
use async_imap.Client.Connection.{Connection}
use async_imap.Client.Connection.Check.{
  Decision, succeeded, refused, decision_items, decision_outcome,
}
use async_imap.Client.Connection.Commands.{next_tag, issued, issued_untagged, awaiting}
use async_imap.Client.Idle.{Handle, arrived, answer, init, done, wait_loop}
use async_imap.Client.Idle.StartStop.{go_ahead, session_or, init_lem, done_lem}
use async_imap.Client.Idle.Waiting.{
  Wake, data_arrived, wake_event, wake_items, wake_outcome, kept, wait_loop_lem,
}
use async_imap.Client.Login.{Base64, plain, Authenticator, login, authenticate}
use async_imap.Client.Login.Handshake.{Challenge, challenge_item, answered, authenticate_lem}
use async_imap.Client.Login.Laws.{attempted, login_lem}
use async_imap.Client.Messages.{append, append_command}
use async_imap.Client.Messages.Append.{with_content, at_conn, append-accepted, append-refused}
use async_imap.Client.Quote.{quote}
use async_imap.Client.Quote.LineEnds.{has_line_end}
use async_imap.Client.Session.{Session}
use async_imap.Error.{Error, IoResult, ok, err}
use async_imap.Parse.Received.{message, Received, Ran}
use async_imap.Proto.{RequestId, Status, Response}
use async_imap.Tests.Support.{
  Queue, queue_channel, queue_laws, empty_channel, connection, session, response,
}
use async_imap.Types.Wire.{ResponseData}

-- The first tag, and an untagged response.
abbrev first_tag : RequestId
first_tag = next_tag (connection [])

abbrev before : List ResponseData
before = response (Response.expunge 7) ∷ []

abbrev success : Decision
success = succeeded (codes "x") none none []

abbrev refusal : Decision
refusal = refused (codes "x") first_tag Status.no none (some (codes "no")) []

not_ok : Status.no ≢ Status.ok
not_ok = ground arith

abbrev user : Bytes
user = codes "user"

abbrev password : Bytes
password = codes "pass"

plain_user : has_line_end user ≡ false
unfolding contains
plain_user = refl

plain_password : has_line_end password ≡ false
unfolding contains
plain_password = refl

abbrev refusing : Connection
refusing = connection (map IoResult.ok before ++ decision_items first_tag refusal)

login_lem_example :
    login queue_channel user password refusing
    ≡ attempted queue_channel (decision_outcome refusal) (
        awaiting []
          (issued (codes "LOGIN " ++ (quote user ++ (codes " " ++ quote password))) refusing))
login_lem_example =
    login_lem queue_channel user password refusing before refusal plain_user plain_password refl
      refl (tt, tt) not_ok

abbrev two_lines : Bytes
two_lines = codes "a\nb"

one_breaks : (has_line_end two_lines || has_line_end password) ≡ true
unfolding contains
one_breaks = refl

-- An encoding that adds one character, and an authenticator that counts.
abbrev base64 : Base64
base64 = record { encode = λ b. b'.' ∷ b; decode = λ b. plain b }

abbrev counter : Authenticator ℕ
counter = λ challenge n. (n ∷ challenge, n + 1)

abbrev challenges : List Challenge
challenges =
    record { owner = codes "+"; code = none; information = none; bytes = [] }
    ∷ record { owner = codes "+"; code = none; information = some (codes "q"); bytes = codes "q" }
    ∷ []

abbrev challenging : Connection
challenging =
    connection (
      map challenge_item challenges ++ (map IoResult.ok before ++ decision_items first_tag success))

authenticate_lem_example :
    authenticate queue_channel base64 counter (codes "X") 0 challenging
    ≡ attempted queue_channel (ok tt) (
        awaiting [] (
          answered queue_channel base64 counter challenges 0
            (issued (codes "AUTHENTICATE " ++ codes "X") challenging)))
authenticate_lem_example =
    authenticate_lem queue_channel base64 counter (codes "X") challenges before success 0
      challenging refl (refl, (refl, tt)) tt (tt, tt) tt refl

abbrev silent : List ResponseData
silent = response (Response.status_data Status.ok none none) ∷ []

abbrev news : Wake
news = data_arrived (response (Response.expunge 7)) []

wait_loop_lem_example :
    Ran queue_laws empty_channel
      (wait_loop queue_channel
        (arrived ∷ wake_event news ∷ [])
        (map IoResult.ok silent ++ wake_items news)
        empty_channel)
      (answer (wake_outcome news))
      []
      (filter_map kept silent)
wait_loop_lem_example = wait_loop_lem queue_laws silent news [] empty_channel (refl, tt) tt refl

abbrev starting : Handle Queue
starting = record {
  session = session (map IoResult.ok before ++ go_ahead (codes "+") none none ∷ []);
  id = none;
}

init_lem_example :
    (c' : Queue) × (init queue_channel starting ≡ (
      ok tt,
      record {
        session = record {
          conn = awaiting [] (issued (codes "IDLE") starting.session.conn);
          unsolicited = c';
        };
        id = some first_tag;
      },
    ))
    × Received queue_laws empty_channel (map message before) c'
init_lem_example =
    init_lem queue_laws starting before (codes "+") none none [] refl refl (tt, tt) refl

abbrev stopping : Handle Queue
stopping = record {
  session = session (map IoResult.ok before ++ decision_items first_tag success);
  id = some first_tag;
}

done_lem_example :
    (s : Session Queue) × (done queue_channel stopping ≡ (session_or s (ok tt), s))
    × (s.conn ≡ awaiting [] (issued_untagged (codes "DONE") stopping.session.conn))
    × Received queue_laws empty_channel (map message before) s.unsolicited
done_lem_example =
    done_lem queue_laws stopping first_tag before success refl refl refl (tt, tt) tt refl

abbrev letter : Bytes
letter = codes "Subject: x"

abbrev full : ResponseData
full = response (Response.done first_tag Status.no none none)

abbrev accepting : Session Queue
accepting = session (
    IoResult.ok (record { owner = codes "+"; parsed = Response.continue none none })
    ∷ IoResult.ok full
    ∷ [])

append-accepted_example : append (codes "INBOX") letter accepting ≡ (
  ok tt,
  at_conn accepting (
      awaiting []
        (with_content letter (issued (append_command (codes "INBOX") letter) accepting.conn))),
)
append-accepted_example =
    append-accepted (codes "INBOX") letter (codes "+") none none full [] accepting refl refl

abbrev declining : Session Queue
declining = session (IoResult.ok full ∷ [])

append-refused_example : append (codes "INBOX") letter declining ≡ (
  err Error.append,
  at_conn declining (awaiting [] (issued (append_command (codes "INBOX") letter) declining.conn)),
)
append-refused_example = append-refused (codes "INBOX") letter full [] declining refl refl tt
