-- ===== src/Client/Steps.antt =====
-- What a program can do with a session of src/client.rs, call by call, as a relation: the commands of
-- `Session`, its raw calls, and `idle` with the handle of src/extensions/idle.rs. A call that fails is
-- a step too; the session that it leaves is the one that is worked on next.
pub mod Evolves
pub mod Keeps
pub mod Commands
pub mod Calm
pub mod Laws
pub mod Receiver
use async_imap.Base.{ℕ, zero, suc, ◌≡◌, Option, List, [], ◌∷◌}
use async_imap.Base.Text.{Bytes}
use async_imap.Channel.{Channel}
use async_imap.Client.Idle
use async_imap.Client.Idle.{Handle, Event, Waited, answer, waiting}
use async_imap.Client.Mailboxes
use async_imap.Client.Messages
use async_imap.Client.Session
use async_imap.Client.Session.{Session}
use async_imap.Error.{Error, Outcome, ok, err}

-- A session, or one that is wrapped in a handle.
pub data Phase (C : Type 0) : Type 0 where
  ready : Session C → Phase C
  idling : Handle C → Phase C

module _ {C : Type 0} where
  abbrev pub session_of : Phase C → Session C
  session_of (ready s) = s
  session_of (idling h) = h.session

-- How a call ended. A call that returns a stream has panicked if the reading of an item has. A wait
-- that is given up is over without an answer.
pub data Ended : Type 0 where
  succeeded : Ended
  failed : Error → Ended
  panicked : Ended

module _ {A : Type 0} where
  abbrev pub ended : Outcome A → Ended
  ended (ok a) = succeeded
  ended (err e) = failed e
  ended Outcome.panic = panicked

  abbrev items_ended : List (Outcome A) → Ended
  items_ended [] = succeeded
  items_ended (ok a ∷ items) = items_ended items
  items_ended (err e ∷ items) = items_ended items
  items_ended (Outcome.panic ∷ items) = panicked

  abbrev pub streamed : Outcome (List (Outcome A)) → Ended
  streamed (ok items) = items_ended items
  streamed (err e) = failed e
  streamed Outcome.panic = panicked

abbrev pub waited : Waited → Ended
waited (answer o) = ended o
waited waiting = succeeded

module _ {C : Type 0} (ch : Channel C) where
  pub data Step : Phase C → Ended → Phase C → Type 0 where
    run_command :
        (s : Session C) (command : Bytes)
        → Step
            (ready s)
            (ended (Session.run_command command s).0)
            (ready (Session.run_command command s).1)
    run_command_untagged :
        (s : Session C) (command : Bytes)
        → Step
            (ready s)
            (ended (Session.run_command_untagged command s).0)
            (ready (Session.run_command_untagged command s).1)
    run_command_and_check_ok :
        (s : Session C) (command : Bytes)
        → Step
            (ready s)
            (ended (Session.run_command_and_check_ok ch command s).0)
            (ready (Session.run_command_and_check_ok ch command s).1)
    read_response :
        (s : Session C)
        → Step (ready s) (ended (Session.read_response s).0) (ready (Session.read_response s).1)
    select :
        (s : Session C) (name : Bytes)
        → Step
            (ready s)
            (ended (Mailboxes.select ch name s).0)
            (ready (Mailboxes.select ch name s).1)
    select_condstore :
        (s : Session C) (name : Bytes)
        → Step
            (ready s)
            (ended (Mailboxes.select_condstore ch name s).0)
            (ready (Mailboxes.select_condstore ch name s).1)
    examine :
        (s : Session C) (name : Bytes)
        → Step
            (ready s)
            (ended (Mailboxes.examine ch name s).0)
            (ready (Mailboxes.examine ch name s).1)
    noop :
        (s : Session C)
        → Step (ready s) (ended (Mailboxes.noop ch s).0) (ready (Mailboxes.noop ch s).1)
    logout :
        (s : Session C)
        → Step (ready s) (ended (Mailboxes.logout ch s).0) (ready (Mailboxes.logout ch s).1)
    create :
        (s : Session C) (name : Bytes)
        → Step
            (ready s)
            (ended (Mailboxes.create ch name s).0)
            (ready (Mailboxes.create ch name s).1)
    delete :
        (s : Session C) (name : Bytes)
        → Step
            (ready s)
            (ended (Mailboxes.delete ch name s).0)
            (ready (Mailboxes.delete ch name s).1)
    rename :
        (s : Session C) (from to : Bytes)
        → Step
            (ready s)
            (ended (Mailboxes.rename ch from to s).0)
            (ready (Mailboxes.rename ch from to s).1)
    subscribe :
        (s : Session C) (name : Bytes)
        → Step
            (ready s)
            (ended (Mailboxes.subscribe ch name s).0)
            (ready (Mailboxes.subscribe ch name s).1)
    unsubscribe :
        (s : Session C) (name : Bytes)
        → Step
            (ready s)
            (ended (Mailboxes.unsubscribe ch name s).0)
            (ready (Mailboxes.unsubscribe ch name s).1)
    capabilities :
        (s : Session C)
        → Step
            (ready s)
            (ended (Mailboxes.capabilities ch s).0)
            (ready (Mailboxes.capabilities ch s).1)
    check :
        (s : Session C)
        → Step (ready s) (ended (Mailboxes.check ch s).0) (ready (Mailboxes.check ch s).1)
    close :
        (s : Session C)
        → Step (ready s) (ended (Mailboxes.close ch s).0) (ready (Mailboxes.close ch s).1)
    list :
        (s : Session C) (reference pattern : Option Bytes) (asked : ℕ)
        → Step
            (ready s)
            (streamed (Mailboxes.list ch reference pattern asked s).0)
            (ready (Mailboxes.list ch reference pattern asked s).1)
    lsub :
        (s : Session C) (reference pattern : Option Bytes) (asked : ℕ)
        → Step
            (ready s)
            (streamed (Mailboxes.lsub ch reference pattern asked s).0)
            (ready (Mailboxes.lsub ch reference pattern asked s).1)
    status :
        (s : Session C) (name data_items : Bytes)
        → Step
            (ready s)
            (ended (Mailboxes.status ch name data_items s).0)
            (ready (Mailboxes.status ch name data_items s).1)
    get_quota :
        (s : Session C) (root : Bytes)
        → Step
            (ready s)
            (ended (Mailboxes.get_quota ch root s).0)
            (ready (Mailboxes.get_quota ch root s).1)
    get_quota_root :
        (s : Session C) (name : Bytes)
        → Step
            (ready s)
            (ended (Mailboxes.get_quota_root ch name s).0)
            (ready (Mailboxes.get_quota_root ch name s).1)
    get_metadata :
        (s : Session C) (name options entry : Bytes)
        → Step
            (ready s)
            (ended (Mailboxes.get_metadata ch name options entry s).0)
            (ready (Mailboxes.get_metadata ch name options entry s).1)
    id :
        (s : Session C) (identification : List (Bytes × Option Bytes))
        → Step
            (ready s)
            (ended (Mailboxes.id ch identification s).0)
            (ready (Mailboxes.id ch identification s).1)
    id_nil :
        (s : Session C)
        → Step (ready s) (ended (Mailboxes.id_nil ch s).0) (ready (Mailboxes.id_nil ch s).1)
    fetch :
        (s : Session C) (set query : Bytes) (asked : ℕ)
        → Step
            (ready s)
            (streamed (Messages.fetch ch set query asked s).0)
            (ready (Messages.fetch ch set query asked s).1)
    uid_fetch :
        (s : Session C) (set query : Bytes) (asked : ℕ)
        → Step
            (ready s)
            (streamed (Messages.uid_fetch ch set query asked s).0)
            (ready (Messages.uid_fetch ch set query asked s).1)
    expunge :
        (s : Session C) (asked : ℕ)
        → Step
            (ready s)
            (streamed (Messages.expunge ch asked s).0)
            (ready (Messages.expunge ch asked s).1)
    uid_expunge :
        (s : Session C) (set : Bytes) (asked : ℕ)
        → Step
            (ready s)
            (streamed (Messages.uid_expunge ch set asked s).0)
            (ready (Messages.uid_expunge ch set asked s).1)
    store :
        (s : Session C) (set query : Bytes) (asked : ℕ)
        → Step
            (ready s)
            (streamed (Messages.store ch set query asked s).0)
            (ready (Messages.store ch set query asked s).1)
    uid_store :
        (s : Session C) (set query : Bytes) (asked : ℕ)
        → Step
            (ready s)
            (streamed (Messages.uid_store ch set query asked s).0)
            (ready (Messages.uid_store ch set query asked s).1)
    copy :
        (s : Session C) (set name : Bytes)
        → Step
            (ready s)
            (ended (Messages.copy ch set name s).0)
            (ready (Messages.copy ch set name s).1)
    uid_copy :
        (s : Session C) (set name : Bytes)
        → Step
            (ready s)
            (ended (Messages.uid_copy ch set name s).0)
            (ready (Messages.uid_copy ch set name s).1)
    mv :
        (s : Session C) (set name : Bytes)
        → Step (ready s) (ended (Messages.mv ch set name s).0) (ready (Messages.mv ch set name s).1)
    uid_mv :
        (s : Session C) (set name : Bytes)
        → Step
            (ready s)
            (ended (Messages.uid_mv ch set name s).0)
            (ready (Messages.uid_mv ch set name s).1)
    search :
        (s : Session C) (query : Bytes)
        → Step
            (ready s)
            (ended (Messages.search ch query s).0)
            (ready (Messages.search ch query s).1)
    uid_search :
        (s : Session C) (query : Bytes)
        → Step
            (ready s)
            (ended (Messages.uid_search ch query s).0)
            (ready (Messages.uid_search ch query s).1)
    append :
        (s : Session C) (mailbox content : Bytes)
        → Step
            (ready s)
            (ended (Messages.append mailbox content s).0)
            (ready (Messages.append mailbox content s).1)
    -- `Session::idle`
    idle : (s : Session C) → Step (ready s) succeeded (idling (Idle.new s))
    init : (h : Handle C) → Step (idling h) (ended (Idle.init ch h).0) (idling (Idle.init ch h).1)
    wait :
        (h : Handle C) (events : List Event)
        → Step
            (idling h)
            (waited (Idle.wait_with_timeout ch events h).0)
            (idling (Idle.wait_with_timeout ch events h).1)
    -- `done` gives the session back only where it succeeds
    finish :
        (h : Handle C) {s : Session C}
        → Idle.done ch h ≡ (ok s, s)
        → Step (idling h) succeeded (ready s)

  -- So many steps, one after the other.
  pub data Reach (p : Phase C) : ℕ → Phase C → Type 0 where
    here : Reach p zero p
    next : {n : ℕ} {q r : Phase C} {e : Ended} → Reach p n q → Step q e r → Reach p (suc n) r
