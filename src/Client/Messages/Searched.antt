-- ===== src/Client/Messages/Searched.antt =====
-- `search`, `uid_search` and `capabilities` of src/client.rs over a whole reply.
use async_imap.Channel.{Channel}
use async_imap.Client.Session.{Session}
use async_imap.Client.Session.Exchanged.{Exchanged}
