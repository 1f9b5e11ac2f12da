-- ===== src/Lib.antt =====
-- A verification library of async-imap, the asynchronous IMAP client.
--
-- The program. A `Client` (client.rs) owns a `Connection`: a stream of parsed responses over a
-- transport (imap_stream.rs) and a generator of tags (types/id_generator.rs). A login turns it into a
-- `Session`, which adds a bounded channel for responses nobody asked for. A command of the session
-- writes one tagged line and then reads its reply: either `check_done_ok` waits for the tagged
-- response, or a reader of parse.rs, extensions/id.rs or extensions/quota.rs collects the responses of
-- one kind and passes the others to the channel. `extensions::idle::Handle` wraps a session while it
-- idles. All paths are below the directory src of the repository.
--
-- The files.
-- - Base: the library names that all modules use, Boolean tests, lists (Base/Lists), texts as lists of
--   bytes (Base/Text), decimals (Base/Decimal).
-- - Proto: the types of the crate imap-proto that the program matches on, with the variants that stand
--   in its patterns; all other variants of a type are `other`. Error: error.rs, results and panics.
-- - Channel: the crate async-channel, as a record of operations and the laws that it documents.
-- - Types: the directory types, one module for each file (Types/Wire has the small ones).
-- - ImapStream: imap_stream.rs. `decode`, `encode` and `poll_next` are the functions of that name, and
--   ImapStream/Buffer has the operations of `Buffer`. The parser and the transport are parameters.
--   ImapStream/Reading, /Framing and /Exact are about polls, one and many, and ImapStream/Fuel about
--   the number of their rounds.
-- - MockStream: mock_stream.rs, the form for async-std, as one transport; MockStream/Tokio has the form
--   for tokio.
-- - Parse: parse.rs. `while_filtered` is the `while let` loop over `take_while(filter)`, and
--   `take_filtered` the `filter_map(take_while(filter))` stream, of which the caller reads some items;
--   Parse/Readers gives each reader by the arms of its `match`; Parse/Mailbox has the two readers that
--   look at the tagged response, `parse_mailbox` and `parse_status`. Parse/Reply says where the reply to
--   a command ends, without the filters of the code, Parse/Taken what any reader may take from the
--   stream and offer to the channel, and Error/Calm which runs do not panic.
-- - Client: client.rs. Client/Quote has `quote!`, `validate_str` and the texts of extensions/id.rs,
--   Client/Connection the connection, Client/Login the client, Client/Session, Client/Mailboxes and
--   Client/Messages the session, Client/Idle extensions/idle.rs. Client/Session/Exchanged joins a
--   command and the reader of its reply; Client/Messages/Streamed and /Searched and
--   Client/Mailboxes/Selected and /Answered are about single commands, and Client/Faults about those
--   that check no argument, on a transport that fails. Client/Steps is the session as a state machine:
--   a step relation between the phases of a session, at rest or idling, with a step for every call,
--   and what holds after any sequence of steps; Client/Steps/Receiver has the messages that the owner
--   of the session takes from its channel in between. Client/Connection/Wire gives the bytes of what a
--   connection has written.
-- - Tests: the theorems at concrete inputs, and in Tests/Repository the tests of client.rs, parse.rs,
--   imap_stream.rs and extensions/id.rs, run on the model over the responses that they give to the
--   parser.
--
-- State. A method that changes a connection or a session is a function from the state to an outcome
-- and a state (Client/Exec), so that what was done before an error stays done. The stream of a
-- connection is the list of the items that it will yield, the list of what has been written, and the
-- faults that its writes will show; a run with any server is a run with the items that the server has
-- sent. The channel is empty after `Session::new` and has room for 100 messages.
--
-- Bounds and fuel. The loop of `poll_next` runs on fuel, `max_capacity` + 2: a round that goes on has
-- put at least one byte into a buffer that holds `max_capacity` bytes at most. All other loops are
-- structural in the list of items or events. The counter of the tags wraps at 2 ^ 64, the
-- multiplication of the usage saturates there; lengths of buffers are unbounded numbers, as they stay
-- below `max_capacity`.
--
-- Not modelled: the crates imap-proto, async-channel, base64 and chrono, the `ReadBuf` of tokio and the
-- authenticator, which are parameters; timers and stop tokens, which are events; logging, Debug and
-- Display forms, plain getters, `as_mut` of a handle, the tests of the repository on the parser or on
-- the runtime, the examples and the build files.
pub mod Base
pub mod Proto
pub mod Error
pub mod Types
pub mod Channel
pub mod Parse
pub mod ImapStream
pub mod MockStream
pub mod Client
pub mod Tests
