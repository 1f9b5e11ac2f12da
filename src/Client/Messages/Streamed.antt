-- ===== src/Client/Messages/Streamed.antt =====
-- The commands of src/client.rs that return a stream, on messages and on mailboxes, over a whole reply.
use async_imap.Base.{
  ℕ, ◌≡◌, ◌<◌, true, Option, none, some, refl, fun_ext, List, [], ◌∷◌, ◌++◌, filter_map, length,
}
use async_imap.Base.Text.{Bytes, codes}
use async_imap.Channel.{Channel, ChannelLaws}
use async_imap.Client.Connection.Commands.{next_tag}
use async_imap.Client.Mailboxes.{or_text, list, lsub}
use async_imap.Client.Messages.{fetch, uid_fetch, store, uid_store, expunge, uid_expunge}
use async_imap.Client.Quote.{quote}
use async_imap.Client.Session.{Session, run_command}
use async_imap.Client.Session.Exchanged.{Exchanged, command_and_read, exchange}
use async_imap.Error.{IoResult, Outcome, ok}
use async_imap.Parse.{Item, take_filtered}
use async_imap.Parse.Readers.{
  select_name, select_fetch, select_expunge, parse_names, parse_fetches, parse_expunge,
}
use async_imap.Proto.{MailboxDatum, Response}
use async_imap.Types.Fetch
use async_imap.Parse.Reply.{Completes}
use async_imap.Parse.Streams.{yielded, passed_on, InReply, take_filtered-Ran}
use async_imap.Types.Fetch.{Fetch}
use async_imap.Types.Wire.{ResponseData, Name, from_mailbox_data}

-- What a caller gets for a response of the reply, if it gets anything: of a `FETCH`, whatever its
-- attributes, the value made of it; of an `EXPUNGE` the number.
abbrev pub fetched_from : ResponseData → Response → Option (Outcome Fetch)
fetched_from resp (Response.fetch number attributes) = some (Fetch.new resp)
fetched_from resp _ = none

abbrev pub fetched : ResponseData → Option (Outcome Fetch)
fetched resp = fetched_from resp resp.parsed

abbrev pub expunged_from : Response → Option (Outcome ℕ)
expunged_from (Response.expunge number) = some (ok number)
expunged_from _ = none

abbrev pub expunged : ResponseData → Option (Outcome ℕ)
expunged resp = expunged_from resp.parsed

-- Of a `LIST` the name, which keeps the response.
abbrev pub named_from : ResponseData → Response → Option (Outcome Name)
named_from resp (Response.mailbox_data (MailboxDatum.list attributes delimiter name)) =
    some (ok (record { owner = resp; attributes = attributes; delimiter = delimiter; name = name }))
named_from resp _ = none

abbrev pub named : ResponseData → Option (Outcome Name)
named resp = named_from resp resp.parsed

select_fetch-fetched :
    (resp : ResponseData) (x : Response) → select_fetch resp x ≡ fetched_from resp x
unfolding select_fetch
select_fetch-fetched resp (Response.fetch number attributes) = refl
select_fetch-fetched resp _ = refl

select_expunge-expunged : (x : Response) → select_expunge x ≡ expunged_from x
unfolding select_expunge
select_expunge-expunged (Response.expunge number) = refl
select_expunge-expunged _ = refl

select_name-named :
    (owner : Bytes) (x : Response)
    → select_name (record { owner = owner; parsed = x }) x
      ≡ named_from (record { owner = owner; parsed = x }) x
unfolding select_name from_mailbox_data
select_name-named owner (Response.mailbox_data (MailboxDatum.list attributes delimiter name)) = refl
select_name-named owner (Response.mailbox_data _) = refl
select_name-named owner _ = refl

module _ {C : Type 0} {ch : Channel C} (laws : ChannelLaws ch) where
  -- The run `r` of a command from session `s` whose caller has read the whole stream.
  abbrev pub Streamed :
      {A : Type 0}
      → (ResponseData → Option (Outcome A))
      → Bytes
      → Session C
      → List Item
      → List Item
      → Outcome (List (Outcome A)) × Session C
      → Type 0
  Streamed select command s before after r =
      Exchanged laws command s (ok (filter_map (yielded laws select (next_tag s.conn)) before))
        after (filter_map (passed_on laws select (next_tag s.conn)) before) r

  stream_with :
      {A : Type 0} (arms select : ResponseData → Option (Outcome A)) (command : Bytes)
      (s : Session C) (before : List Item) (d : ResponseData) (after : List Item) (asked : ℕ)
      → ((resp : ResponseData) → arms resp ≡ select resp)
      → s.conn.stream.faults ≡ []
      → s.conn.stream.incoming ≡ before ++ IoResult.ok d ∷ after
      → InReply (next_tag s.conn) before
      → Completes (next_tag s.conn) d.parsed
      → length before < asked
      → laws.is_open s.unsolicited ≡ true
      → Streamed select command s before after
          (command_and_read laws command ok (λ id. take_filtered ch arms id asked) s)
  stream_with arms select command s before d after asked same f i w e h o = rw (fun_ext same) (
      exchange laws command s ok (λ id. take_filtered ch select id asked) f i
        (take_filtered-Ran laws select (next_tag s.conn) before d after asked s.unsolicited w e h
          o))

  -- On a session whose writes succeed and whose channel is open, where the reply ends with the tagged
  -- response and the caller reads the stream to its end: `fetch`, `uid_fetch`, `store`, `uid_store`,
  -- `expunge` and `uid_expunge` send their line with a fresh tag, and give the values of the `FETCH` or
  -- `EXPUNGE` responses and the errors of the stream, in order; the other responses are offered to the
  -- channel, in order, and what follows the tagged response stays in the stream.
  pub fetch-Streamed :
      (set query : Bytes) (s : Session C) (before : List Item) (d : ResponseData)
      (after : List Item) (asked : ℕ)
      → s.conn.stream.faults ≡ []
      → s.conn.stream.incoming ≡ before ++ IoResult.ok d ∷ after
      → InReply (next_tag s.conn) before
      → Completes (next_tag s.conn) d.parsed
      → length before < asked
      → laws.is_open s.unsolicited ≡ true
      → Streamed fetched
          (codes "FETCH " ++ (set ++ (codes " " ++ query)))
          s
          before
          after
          (fetch ch set query asked s)
        × Streamed fetched
            (codes "UID FETCH " ++ (set ++ (codes " " ++ query)))
            s
            before
            after
            (uid_fetch ch set query asked s)
        × Streamed fetched
            (codes "STORE " ++ (set ++ (codes " " ++ query)))
            s
            before
            after
            (store ch set query asked s)
        × Streamed fetched
            (codes "UID STORE " ++ (set ++ (codes " " ++ query)))
            s
            before
            after
            (uid_store ch set query asked s)
        × Streamed expunged (codes "EXPUNGE") s before after (expunge ch asked s)
        × Streamed expunged
            (codes "UID EXPUNGE " ++ set)
            s
            before
            after
            (uid_expunge ch set asked s)
  unfolding fetch uid_fetch store uid_store expunge uid_expunge run_command parse_fetches
      parse_expunge
  fetch-Streamed set query s before d after asked f i w e h o = (
    stream_with _ fetched _ s before d after asked (λ r. select_fetch-fetched r r.parsed) f i w e h
        o,
    stream_with _ fetched _ s before d after asked (λ r. select_fetch-fetched r r.parsed) f i w e h
        o,
    stream_with _ fetched _ s before d after asked (λ r. select_fetch-fetched r r.parsed) f i w e h
        o,
    stream_with _ fetched _ s before d after asked (λ r. select_fetch-fetched r r.parsed) f i w e h
        o,
    stream_with _ expunged _ s before d after asked (λ r. select_expunge-expunged r.parsed) f i w e
        h o,
    stream_with _ expunged _ s before d after asked (λ r. select_expunge-expunged r.parsed) f i w e
        h o,
  )

  -- On a session whose writes succeed and whose channel is open, where the reply ends with the tagged
  -- response and the caller reads the stream to its end: `list` and `lsub` send their line with a fresh
  -- tag, the quoted reference, empty where it is missing, and the pattern as it is, two quotes or
  -- nothing where it is missing; they give the names that the reply lists and the errors of the stream,
  -- in order; the other responses are offered to the channel, in order, and what follows the tagged
  -- response stays in the stream.
  pub list-Streamed :
      (reference_name mailbox_pattern : Option Bytes) (s : Session C) (before : List Item)
      (d : ResponseData) (after : List Item) (asked : ℕ)
      → s.conn.stream.faults ≡ []
      → s.conn.stream.incoming ≡ before ++ IoResult.ok d ∷ after
      → InReply (next_tag s.conn) before
      → Completes (next_tag s.conn) d.parsed
      → length before < asked
      → laws.is_open s.unsolicited ≡ true
      → Streamed named
          (codes "LIST "
            ++ (quote (or_text reference_name [])
                ++ (codes " " ++ or_text mailbox_pattern (codes "\"\""))))
          s
          before
          after
          (list ch reference_name mailbox_pattern asked s)
        × Streamed named
            (codes "LSUB "
              ++ (quote (or_text reference_name []) ++ (codes " " ++ or_text mailbox_pattern [])))
            s
            before
            after
            (lsub ch reference_name mailbox_pattern asked s)
  unfolding list lsub run_command parse_names
  list-Streamed reference_name mailbox_pattern s before d after asked f i w e h o = (
    stream_with _ named _ s before d after asked (λ r. select_name-named r.owner r.parsed) f i w e h
        o,
    stream_with _ named _ s before d after asked (λ r. select_name-named r.owner r.parsed) f i w e h
        o,
  )
