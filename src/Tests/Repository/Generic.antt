-- ===== src/Tests/Repository/Generic.antt =====
-- The tests of src/client.rs on `store`, `copy` and `fetch`, by UID or not.
use async_imap.Base.{◌≡◌, refl, none, List, [], ◌∷◌, ◌++◌}
use async_imap.Base.Text.{Bytes, codes}
use async_imap.Client.Connection.{Connection}
use async_imap.Client.Exec.{Exec}
use async_imap.Client.Login
use async_imap.Client.Messages
use async_imap.Client.Session
use async_imap.Client.Session.{Session}
use async_imap.Error.{Outcome, ok}
use async_imap.Proto.{AttributeValue, Response}
use async_imap.Tests.Support.{Queue, queue_channel}
use async_imap.Types.Fetch.{Fetch}
use async_imap.Tests.Repository.{mock_session, tagged, written_buf}

-- The line of a command, with `UID` in front of it where the prefix says so.
abbrev line_of : Bytes → Bytes → Bytes → Bytes → Bytes
line_of cmd seq query prefix =
    codes "A0001"
    ++ (prefix ++ (cmd ++ (codes " " ++ (seq ++ (codes " " ++ (query ++ codes "\r\n"))))))

-- `generic_with_uid`: the operation on a session, and the line that it is to write.
abbrev generic_with_uid :
    {A : Type 0}
    → List Response
    → Bytes
    → Bytes
    → Bytes
    → Bytes
    → (Bytes → Bytes → Exec (Session Queue) A)
    → (Outcome A × Session Queue) × Bytes
generic_with_uid res cmd seq query prefix op =
    (op seq query (mock_session res), line_of cmd seq query prefix)

abbrev generic_store :
    {A : Type 0}
    → Bytes
    → (Bytes → Bytes → Exec (Session Queue) A)
    → (Outcome A × Session Queue) × Bytes
generic_store prefix op =
    generic_with_uid
      (Response.fetch 2 (AttributeValue.flags (codes "\\Deleted" ∷ codes "\\Seen" ∷ []) ∷ [])
        ∷ Response.fetch 3 (AttributeValue.flags (codes "\\Deleted" ∷ []) ∷ [])
        ∷ Response.fetch 4 (
            AttributeValue.flags (codes "\\Deleted" ∷ codes "\\Flagged" ∷ codes "\\Seen" ∷ []) ∷ [])
        ∷ tagged (codes "A0001") none (codes "STORE completed")
        ∷ [])
      (codes "STORE") (codes "2.4") (codes "+FLAGS (\\Deleted)") prefix op

abbrev generic_copy :
    {A : Type 0}
    → Bytes
    → (Bytes → Bytes → Exec (Session Queue) A)
    → (Outcome A × Session Queue) × Bytes
generic_copy prefix op =
    generic_with_uid (tagged (codes "A0001") none (codes "COPY completed") ∷ []) (codes "COPY")
      (codes "2:4") (codes "MEETING") prefix op

abbrev generic_fetch :
    {A : Type 0}
    → Bytes
    → (Bytes → Bytes → Exec (Session Queue) A)
    → (Outcome A × Session Queue) × Bytes
generic_fetch prefix op =
    generic_with_uid (tagged (codes "A0001") none (codes "FETCH completed") ∷ []) (codes "FETCH")
      (codes "1") (codes "BODY[]") prefix op

-- The operation succeeds, and has written the line.
abbrev Succeeds : {A : Type 0} → (Outcome A × Session Queue) × Bytes → Type 0
Succeeds {A} r = ((a : A) × (r.0.0 ≡ ok a)) × (written_buf r.0 ≡ r.1)

abbrev store : (Outcome (List (Outcome Fetch)) × Session Queue) × Bytes
store = generic_store (codes " ") (λ set query. Messages.store queue_channel set query 10)

store_passes : Succeeds store
unfolding Messages.store Session.run_command async_imap.Client.Connection.run_command Session.new
    Login.new async_imap.Types.IdGenerator.next_id async_imap.Types.IdGenerator.tag_of
store_passes = ((_, refl), refl)

abbrev uid_store : (Outcome (List (Outcome Fetch)) × Session Queue) × Bytes
uid_store =
    generic_store (codes " UID ") (λ set query. Messages.uid_store queue_channel set query 10)

uid_store_passes : Succeeds uid_store
unfolding Messages.uid_store Session.run_command async_imap.Client.Connection.run_command
    Session.new Login.new async_imap.Types.IdGenerator.next_id async_imap.Types.IdGenerator.tag_of
uid_store_passes = ((_, refl), refl)

abbrev copy : (Outcome (Unit {0}) × Session Queue) × Bytes
copy = generic_copy (codes " ") (Messages.copy queue_channel)

copy_passes : Succeeds copy
unfolding Messages.copy Session.run_command_and_check_ok
    async_imap.Client.Connection.run_command_and_check_ok async_imap.Client.Connection.run_command
    Session.new Login.new async_imap.Client.Connection.check_done_ok
    async_imap.Client.Connection.verdict async_imap.Parse.Mailbox.check_status
    async_imap.Base.Text.equal async_imap.Types.IdGenerator.next_id
    async_imap.Types.IdGenerator.tag_of
copy_passes = ((_, refl), refl)

abbrev uid_copy : (Outcome (Unit {0}) × Session Queue) × Bytes
uid_copy = generic_copy (codes " UID ") (Messages.uid_copy queue_channel)

uid_copy_passes : Succeeds uid_copy
unfolding Messages.uid_copy Session.run_command_and_check_ok
    async_imap.Client.Connection.run_command_and_check_ok async_imap.Client.Connection.run_command
    Session.new Login.new async_imap.Client.Connection.check_done_ok
    async_imap.Client.Connection.verdict async_imap.Parse.Mailbox.check_status
    async_imap.Base.Text.equal async_imap.Types.IdGenerator.next_id
    async_imap.Types.IdGenerator.tag_of
uid_copy_passes = ((_, refl), refl)

abbrev fetch : (Outcome (List (Outcome Fetch)) × Session Queue) × Bytes
fetch = generic_fetch (codes " ") (λ set query. Messages.fetch queue_channel set query 10)

fetch_passes : Succeeds fetch
unfolding Messages.fetch Session.run_command async_imap.Client.Connection.run_command Session.new
    Login.new async_imap.Types.IdGenerator.next_id async_imap.Types.IdGenerator.tag_of
fetch_passes = ((_, refl), refl)

abbrev uid_fetch : (Outcome (List (Outcome Fetch)) × Session Queue) × Bytes
uid_fetch =
    generic_fetch (codes " UID ") (λ set query. Messages.uid_fetch queue_channel set query 10)

uid_fetch_passes : Succeeds uid_fetch
unfolding Messages.uid_fetch Session.run_command async_imap.Client.Connection.run_command
    Session.new Login.new async_imap.Types.IdGenerator.next_id async_imap.Types.IdGenerator.tag_of
uid_fetch_passes = ((_, refl), refl)
