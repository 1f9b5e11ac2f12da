-- ===== src/Client/Login.antt =====
-- `Client` of src/client.rs: login and the handshake of `authenticate`. The base64 engine is a
-- parameter, and so is the authenticator, with a state of its own.
pub mod Laws
pub mod Handshake
use async_imap.Base.{ℕ, Option, none, some, List, [], ◌∷◌, ◌++◌}
use async_imap.Base.Text.{Bytes, codes}
use async_imap.Channel.{Channel}
use async_imap.Client.Connection.{
  Connection, Stream, Held, run_command, run_command_untagged, run_command_and_check_ok,
  check_done_ok_from,
}
use async_imap.Client.Exec.{Exec, ◌>>=◌, lift}
use async_imap.Client.Quote.{validate_str}
use async_imap.Client.Session
use async_imap.Client.Session.{Session}
use async_imap.Error.{Error, ParseError, IoResult, Outcome, ok, err}
use async_imap.Parse.{Item}
use async_imap.Proto.{RequestId, Response}
use async_imap.Types.IdGenerator
use async_imap.Types.Wire.{ResponseData}

-- `general_purpose::STANDARD` of the crate base64; an error of `decode` is a number.
pub data Decoded : Type 0 where
  plain : Bytes → Decoded
  malformed : ℕ → Decoded

pub record Base64 : Type 0 where
  pub encode : Bytes → Bytes
  pub decode : Bytes → Decoded

-- `Authenticator::process`, which may change the authenticator.
abbrev pub Authenticator : Type 0 → Type 0
Authenticator A = Bytes → A → Bytes × A

-- `Result<Session<T>, (Error, Client<T>)>`, or a panic.
pub data Attempt (C : Type 0) : Type 0 where
  session : Session C → Attempt C
  refused : Error → Connection → Attempt C
  panicked : Attempt C

-- `Client::new`; a client is its connection.
unfoldable pub new : Stream → Connection
new stream = record { stream = stream; request_ids = IdGenerator.new }

module _ {C : Type 0} (ch : Channel C) where
  -- `ok_or_unauth_client_err!`, and `Session::new` at the end.
  abbrev finish : Outcome (Unit {0}) × Connection → Attempt C
  finish (ok _, conn) = session (Session.new ch conn)
  finish (err e, conn) = refused e conn
  finish (Outcome.panic, conn) = panicked

  login_steps : Bytes → Bytes → Exec (Held ch) (Unit {0})
  login_steps username password = do
    u ← lift (validate_str username)
    p ← lift (validate_str password)
    run_command_and_check_ok ch (codes "LOGIN " ++ (u ++ (codes " " ++ p)))

  unfoldable pub login : Bytes → Bytes → Connection → Attempt C
  unfolding login_steps
  login username password conn =
      let (o, held) = login_steps username password (record { conn = conn; unsolicited = none }) in
      finish (o, held.conn)

module _ {C A : Type 0} (ch : Channel C) (base64 : Base64) (process : Authenticator A) where
  -- The bytes of the challenge.
  challenge_of : Option Bytes → Outcome Bytes
  challenge_of none = ok []
  challenge_of (some text) = elim (base64.decode text) [
    | plain bytes ↦ ok bytes
    | malformed e ↦ err (Error.parse (ParseError.authentication text (some e)))
  ]

  -- The answer to a continuation request; the authenticator is left as it is then.
  answer_to : Option Bytes → A → Connection → Outcome (Unit {0}) × Connection × A
  unfolding challenge_of
  answer_to information auth conn = elim (challenge_of information) [
    | ok challenge ↦
        let (raw_response, auth') = process challenge auth in
        let (o, conn') = run_command_untagged (base64.encode raw_response) conn in (o, conn', auth')
    | err e ↦ (err e, conn, auth)
    | Outcome.panic ↦ (Outcome.panic, conn, auth)
  ]

  -- The connection with the items that are still to come.
  abbrev at_items : List Item → Connection → Connection
  at_items items conn = record conn { stream = record conn.stream { incoming = items } }

  -- `check_done_ok_from(&id, None, res)`, and the session.
  finish_from : RequestId → ResponseData → List Item → Connection → Attempt C
  finish_from id res rest conn =
      let (o, feed) = check_done_ok_from ch id res rest none in
      finish ch (o, at_items feed.incoming conn)

  after_answer : (A → Connection → Attempt C) → Outcome (Unit {0}) × Connection × A → Attempt C
  after_answer next (ok _, conn, auth) = next auth conn
  after_answer next (err e, conn, auth) = refused e conn
  after_answer next (Outcome.panic, conn, auth) = panicked

  -- One response of the handshake, with `rest` still to come.
  handshake_step :
      RequestId
      → ResponseData
      → List Item
      → (A → Connection → Attempt C)
      → A
      → Connection
      → Response
      → Attempt C
  unfolding answer_to after_answer finish_from
  handshake_step id res rest next auth conn (Response.continue code information) =
      after_answer next (answer_to information auth (at_items rest conn))
  handshake_step id res rest next auth conn _ = finish_from id res rest conn

  -- The loop of `do_auth_handshake`, over the items to come.
  unfoldable pub do_auth_handshake : RequestId → List Item → A → Connection → Attempt C
  unfolding handshake_step
  do_auth_handshake id [] auth conn = refused Error.connection_lost (at_items [] conn)
  do_auth_handshake id (IoResult.err e ∷ rest) auth conn = refused (Error.io e) (at_items rest conn)
  do_auth_handshake id (IoResult.ok res ∷ rest) auth conn =
      handshake_step id res rest (do_auth_handshake id rest) auth conn res.parsed

  after_command : A → Outcome RequestId × Connection → Attempt C
  unfolding do_auth_handshake
  after_command auth (ok id, conn) = do_auth_handshake id conn.stream.incoming auth conn
  after_command auth (err e, conn) = refused e conn
  after_command auth (Outcome.panic, conn) = panicked

  unfoldable pub authenticate : Bytes → A → Connection → Attempt C
  unfolding after_command
  authenticate auth_type auth conn =
      after_command auth (run_command (codes "AUTHENTICATE " ++ auth_type) conn)
