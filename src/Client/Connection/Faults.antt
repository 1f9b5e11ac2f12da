-- ===== src/Client/Connection/Faults.antt =====
-- `run_command` of src/client.rs where its line cannot be written.
use async_imap.Base.{◌≡◌, refl, ◌⊎◌, inl, inr, Option, none, some, List, ◌∷◌}
use async_imap.Base.Text.{Bytes}
use async_imap.Client.Connection.{Connection, put, write_with, take_id, run_command}
use async_imap.Error.{Error, IoError, err}
use async_imap.Types.IdGenerator.{next_id}

-- The write of the next line fails with this error, or the flush behind it.
abbrev pub NextLineFails : IoError → Connection → Type 0
NextLineFails e conn =
    ((later : List (Option IoError)) × (conn.stream.faults ≡ some e ∷ later))
    ⊎ ((later : List (Option IoError)) × (conn.stream.faults ≡ none ∷ some e ∷ later))

-- The connection `t` after the failure: a tag is used up, and nothing is read.
pub record Unread (conn t : Connection) : Type 0 where
  pub incoming_is : t.stream.incoming ≡ conn.stream.incoming
  pub request_ids_is : t.request_ids ≡ (next_id conn.request_ids).1

pub run_command-fails :
    (e : IoError) (command : Bytes) (conn : Connection)
    → NextLineFails e conn
    → (t : Connection) × (run_command command conn ≡ (err (Error.io e), t)) × Unread conn t
unfolding run_command put write_with take_id
run_command-fails e command conn (inl (later, h)) =
    rw (h, write_with) (_, refl, record { incoming_is = refl; request_ids_is = refl })
run_command-fails e command conn (inr (later, h)) =
    rw (h, write_with) (_, refl, record { incoming_is = refl; request_ids_is = refl })
