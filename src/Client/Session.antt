-- ===== src/Client/Session.antt =====
-- `Session` of src/client.rs: what it is made of, and the calls by which its commands work.
pub mod Checked
pub mod Exchanged
use async_imap.Base.{Option, none, some, List}
use async_imap.Base.Text.{Bytes}
use async_imap.Channel.{Channel}
use async_imap.Client.Connection
use async_imap.Client.Connection.{Connection, Held}
use async_imap.Client.Exec.{Exec}
use async_imap.Error.{Outcome, ok}
use async_imap.Parse.{Item, Feed}
use async_imap.Proto.{RequestId}

pub record Session (C : Type 0) : Type 0 where
  pub conn : Connection
  -- both ends of the channel for unsolicited responses
  pub unsolicited : C

module _ {C : Type 0} (ch : Channel C) where
  -- `Session::new`
  unfoldable pub new : Connection → Session C
  new conn = record { conn = conn; unsolicited = ch.bounded 100 }

module _ {C : Type 0} where
  -- A call on the connection.
  abbrev pub on_conn : {A : Type 0} → Exec Connection A → Exec (Session C) A
  on_conn m s = let (o, conn) = m s.conn in (o, record s { conn = conn })

  abbrev with_feed : Session C → Feed C → Session C
  with_feed s feed = record s {
    conn = record s.conn { stream = record s.conn.stream { incoming = feed.incoming } };
    unsolicited = feed.chan;
  }

  -- A reader of src/parse.rs, on the stream and the sender of the session.
  abbrev pub reading : {A : Type 0} → (List Item → C → Outcome A × Feed C) → Exec (Session C) A
  reading f s = let (o, feed) = f s.conn.stream.incoming s.unsolicited in (o, with_feed s feed)

  -- The same for a stream of results, which are taken from it one by one.
  abbrev pub streaming :
      {A : Type 0}
      → (List Item → C → List (Outcome A) × Feed C)
      → Exec (Session C) (List (Outcome A))
  streaming f s =
      let (items, feed) = f s.conn.stream.incoming s.unsolicited in (ok items, with_feed s feed)

  unfoldable pub run_command : Bytes → Exec (Session C) RequestId
  run_command command = on_conn (Connection.run_command command)

  unfoldable pub run_command_untagged : Bytes → Exec (Session C) (Unit {0})
  run_command_untagged command = on_conn (Connection.run_command_untagged command)

  unfoldable pub read_response : Exec (Session C) (Option Item)
  read_response = on_conn Connection.read_response

module _ {C : Type 0} (ch : Channel C) where
  -- The sender that comes back with the connection.
  abbrev pub sender_or : C → Option C → C
  sender_or c none = c
  sender_or c (some c') = c'

  -- A call on the connection that is given the sender.
  abbrev pub on_held : {A : Type 0} → Exec (Held ch) A → Exec (Session C) A
  on_held m s =
      let (o, held) = m (record { conn = s.conn; unsolicited = some s.unsolicited }) in
      (o, record { conn = held.conn; unsolicited = sender_or s.unsolicited held.unsolicited })

  unfoldable pub run_command_and_check_ok : Bytes → Exec (Session C) (Unit {0})
  run_command_and_check_ok command = on_held (Connection.run_command_and_check_ok ch command)
