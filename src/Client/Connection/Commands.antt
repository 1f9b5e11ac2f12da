-- ===== src/Client/Connection/Commands.antt =====
-- `run_command` and `run_command_and_check_ok` of src/client.rs: what goes out and what is awaited.
use async_imap.Base.{◌≡◌, refl, none, some, List, [], ◌∷◌, ◌++◌, append_assoc}
use async_imap.Base.Text.{Bytes}
use async_imap.Client.Connection.{
  read_response, next_in, Connection, Sent, put, write_with, take_id, run_command,
  run_command_untagged,
}
use async_imap.Error.{ok}
use async_imap.Parse.{Item}
use async_imap.Proto.{RequestId}
use async_imap.Types.IdGenerator.{next_id}

-- The tag of the next command.
abbrev pub next_tag : Connection → RequestId
next_tag conn = (next_id conn.request_ids).0

-- The connection after a command has been written and flushed.
abbrev pub issued : Bytes → Connection → Connection
issued command conn = record {
  stream = record conn.stream {
    sent =
        conn.stream.sent
        ++ Sent.request (record { tag = some (next_tag conn); body = command }) ∷ Sent.flushed ∷ [];
  };
  request_ids = (next_id conn.request_ids).1;
}

-- The same for a line without a tag.
abbrev pub issued_untagged : Bytes → Connection → Connection
issued_untagged command conn = record conn {
  stream = record conn.stream {
    sent =
        conn.stream.sent
        ++ Sent.request (record { tag = none; body = command }) ∷ Sent.flushed ∷ [];
  };
}

-- The connection with other items still to come.
abbrev pub awaiting : List Item → Connection → Connection
awaiting items conn = record conn { stream = record conn.stream { incoming = items } }

pub run_command_lem :
    (command : Bytes) (conn : Connection)
    → conn.stream.faults ≡ []
    → run_command command conn ≡ (ok (next_tag conn), issued command conn)
unfolding run_command put write_with take_id
run_command_lem command conn h = rw (h, write_with) (rw append_assoc)

pub run_command_untagged_lem :
    (command : Bytes) (conn : Connection)
    → conn.stream.faults ≡ []
    → run_command_untagged command conn ≡ (ok tt, issued_untagged command conn)
unfolding run_command_untagged put write_with
run_command_untagged_lem command conn h = rw (h, write_with) (rw append_assoc)

-- The connection after one more thing has been written.
abbrev pub with_sent : Sent → Connection → Connection
with_sent what conn = record conn {
  stream = record conn.stream { sent = conn.stream.sent ++ what ∷ [] };
}

pub put_lem :
    (what : Sent) (conn : Connection)
    → conn.stream.faults ≡ []
    → put what conn ≡ (ok tt, with_sent what conn)
unfolding put write_with
put_lem what conn h = rw (h, write_with) refl

pub read_response_lem :
    (conn : Connection) (item : Item) (rest : List Item)
    → conn.stream.incoming ≡ item ∷ rest
    → read_response conn ≡ (ok (some item), awaiting rest conn)
unfolding read_response next_in
read_response_lem conn item rest h = rw (h, next_in) refl
