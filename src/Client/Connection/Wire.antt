-- ===== src/Client/Connection/Wire.antt =====
-- What a connection of src/client.rs has written, as the bytes on the transport of src/imap_stream.rs.
use async_imap.Base.{List, [], ◌∷◌, ◌++◌}
use async_imap.Base.Text.{Bytes}
use async_imap.Client.Connection.{Sent}
use async_imap.ImapStream.Writing.{wire}

-- The bytes of all that was written, in order.
abbrev pub on_wire : List Sent → Bytes
on_wire [] = []
on_wire (Sent.request r ∷ sent) = wire r ++ on_wire sent
on_wire (Sent.raw bytes ∷ sent) = bytes ++ on_wire sent
on_wire (Sent.flushed ∷ sent) = on_wire sent
