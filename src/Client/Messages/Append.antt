-- ===== src/Client/Messages/Append.antt =====
-- `append` of src/client.rs as a whole.
use async_imap.Base.{
  ◌≡◌, refl, ◌∙◌, Option, some, List, [], ◌∷◌, ◌++◌, append_assoc, length, ap, drop,
  drop-append_exact,
}
use async_imap.Base.Decimal.{decimal, read_decimal, read_decimal-decimal}
use async_imap.Base.Text.{Bytes, codes}
use async_imap.Client.Connection.{Connection, Sent}
use async_imap.Client.Connection.Commands.{
  issued, awaiting, run_command_lem, put_lem, with_sent, read_response_lem,
}
use async_imap.Client.Messages.{
  append, append_command, append_after, append_to, send_content, transpose,
}
use async_imap.Client.Session
use async_imap.Client.Session.{Session, run_command}
use async_imap.Error.{Error, IoResult, ok, err}
use async_imap.Parse.{Item}
use async_imap.Proto.{ResponseCode, Response}
use async_imap.Types.Wire.{ResponseData}

abbrev pub IsRefusal : Response → Type 0
IsRefusal (Response.continue _ _) = ⊥
IsRefusal _ = Unit

-- The connection after the content and its line end.
abbrev pub with_content : Bytes → Connection → Connection
with_content content conn = record conn {
  stream = record conn.stream {
    sent = conn.stream.sent ++ Sent.raw content ∷ Sent.raw (codes "\r\n") ∷ Sent.flushed ∷ [];
  };
}

module _ {C : Type 0} where
  -- The session with another connection.
  abbrev pub at_conn : Session C → Connection → Session C
  at_conn s conn = record s { conn = conn }

  append_lem :
      (mailbox content : Bytes) (item : Item) (rest : List Item) (s : Session C)
      → s.conn.stream.faults ≡ []
      → s.conn.stream.incoming ≡ item ∷ rest
      → append mailbox content s
        ≡ append_after content
            (some item)
            (at_conn s (awaiting rest (issued (append_command mailbox content) s.conn)))
  unfolding append run_command Session.read_response
  append_lem mailbox content item rest s f i =
      let command = append_command mailbox content in
      rw (run_command_lem command s.conn f)
        (rw (read_response_lem (issued command s.conn) item rest i) refl)

  send_content_lem :
      (content : Bytes) (final : ResponseData) (rest : List Item) (s : Session C)
      → s.conn.stream.faults ≡ []
      → s.conn.stream.incoming ≡ IoResult.ok final ∷ rest
      → send_content content s ≡ (ok tt, at_conn s (awaiting rest (with_content content s.conn)))
  unfolding send_content Session.read_response transpose
  send_content_lem content final rest s f i =
      let first = with_sent (Sent.raw content) s.conn in
      let second = with_sent (Sent.raw (codes "\r\n")) first in
      let third = with_sent Sent.flushed second in
      rw (put_lem (Sent.raw content) s.conn f) (
        rw (put_lem (Sent.raw (codes "\r\n")) first f) (
          rw (put_lem Sent.flushed second f) (
            rw (read_response_lem third (IoResult.ok final) rest i)
              (rw (append_assoc, append_assoc)))))

  no_content :
      (content : Bytes) (x : Response) (s : Session C)
      → IsRefusal x
      → append_to content x s ≡ (err Error.append, s)
  unfolding append_to
  no_content content (Response.continue c n) s r = absurd r
  no_content content _ s r = refl

  -- Where the writes succeed, the first response is the continuation request and another one
  -- follows, `append` sends the content and a line end, takes the other response, and succeeds
  -- whatever it is, a `NO` or a `BAD` included.
  pub append-accepted :
      (mailbox content owner : Bytes) (code : Option ResponseCode) (information : Option Bytes)
      (final : ResponseData) (after : List Item) (s : Session C)
      → s.conn.stream.faults ≡ []
      → s.conn.stream.incoming
        ≡ IoResult.ok (record { owner = owner; parsed = Response.continue code information })
          ∷ IoResult.ok final
          ∷ after
      → append mailbox content s ≡ (
        ok tt,
        at_conn s (
            awaiting after (with_content content (issued (append_command mailbox content) s.conn))),
      )
  append-accepted mailbox content owner code information final after s f i =
      append_lem mailbox content _ _ s f i
      ∙ unfold append_after append_to in send_content_lem content final after _ f refl

  -- Where the writes succeed and the first response is any other one, an untagged one included, `append`
  -- fails with `Append`, and the content is not sent.
  pub append-refused :
      (mailbox content : Bytes) (first : ResponseData) (after : List Item) (s : Session C)
      → s.conn.stream.faults ≡ []
      → s.conn.stream.incoming ≡ IoResult.ok first ∷ after
      → IsRefusal first.parsed
      → append mailbox content s ≡ (
        err Error.append,
        at_conn s (awaiting after (issued (append_command mailbox content) s.conn)),
      )
  append-refused mailbox content first after s f i r =
      append_lem mailbox content _ _ s f i
      ∙ unfold append_after in no_content content first.parsed _ r

-- Behind the mailbox and the opening brace, the command holds digits that stand for the number of bytes
-- of the content, and a closing brace.
pub append_command-announces :
    (mailbox content : Bytes)
    → (digits : Bytes) × (drop
          (length (codes "APPEND \"" ++ (mailbox ++ codes "\" {")))
          (append_command mailbox content)
        ≡ digits ++ codes "}")
      × (read_decimal 0 digits ≡ length content)
unfolding append_command
append_command-announces mailbox content = (
  decimal (length content),
  ap (drop (length (codes "APPEND \"" ++ (mailbox ++ codes "\" {"))))
        (regrouped mailbox (codes "\" {") (decimal (length content) ++ codes "}"))
      ∙ drop-append_exact (codes "APPEND \"" ++ (mailbox ++ codes "\" {")) _,
  read_decimal-decimal (length content),
)
  where
    regrouped :
        (m o r : Bytes)
        → codes "APPEND \"" ++ (m ++ (o ++ r)) ≡ (codes "APPEND \"" ++ (m ++ o)) ++ r
    regrouped m o r = rw (append_assoc, append_assoc)
