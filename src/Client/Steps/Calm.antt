-- ===== src/Client/Steps/Calm.antt =====
-- No call on a session of src/client.rs panics.
use async_imap.Base.{ℕ, ◌≡◌, ◌≢◌, refl, true, Option, List, [], ◌∷◌, arith}
use async_imap.Base.Text.{Bytes}
use async_imap.Channel.{Channel, ChannelLaws}
use async_imap.Client.Exec.{◌>>=◌, continue}
use async_imap.Client.Mailboxes
use async_imap.Client.Messages
use async_imap.Client.Session.{Session, run_command, streaming}
use async_imap.Client.Steps
use async_imap.Client.Steps.{Ended, panicked, ended, items_ended, streamed, Phase, ready, Step}
use async_imap.Client.Steps.Commands.{
  select-Keeps, select_condstore-Keeps, examine-Keeps, create-Keeps, delete-Keeps, subscribe-Keeps,
  unsubscribe-Keeps, get_quota-Keeps, get_quota_root-Keeps, noop-Keeps, logout-Keeps,
  capabilities-Keeps, check-Keeps, close-Keeps, id_nil-Keeps, rename-Keeps, status-Keeps,
  get_metadata-Keeps, id-Keeps, copy-Keeps, uid_copy-Keeps, mv-Keeps, uid_mv-Keeps, search-Keeps,
  uid_search-Keeps, append-Keeps,
}
use async_imap.Client.Steps.Keeps.{
  Keeps-run_command, Keeps-run_command_untagged, Keeps-run_command_and_check_ok,
  Keeps-read_response,
}
use async_imap.Error.{Outcome, ok, err, panic}
use async_imap.Error.Calm.{IsCalm, AllCalm}
use async_imap.Parse.{Item, Feed}
use async_imap.Parse.Readers.Taken.{
  parse_names-AllCalm, parse_fetches-AllCalm, parse_expunge-AllCalm,
}
use async_imap.Proto.{RequestId}

module _ {A : Type 0} where
  ended-calm : (o : Outcome A) → IsCalm o → ended o ≢ panicked
  ended-calm (ok a) k = λ e. ground arith
  ended-calm (err x) k = λ e. ground arith
  ended-calm panic k = absurd (k.no_panic refl)

  items-calm : (items : List (Outcome A)) → AllCalm items → items_ended items ≢ panicked
  items-calm [] k = λ e. ground arith
  items-calm (ok a ∷ items) (k, ks) = items-calm items ks
  items-calm (err x ∷ items) (k, ks) = items-calm items ks
  items-calm (panic ∷ items) (k, ks) = absurd (k.no_panic refl)

module _ {C : Type 0} {ch : Channel C} (laws : ChannelLaws ch) where
  module _ {A : Type 0} (f : RequestId → List Item → C → List (Outcome A) × Feed C)
      (calm : (id : RequestId) (items : List Item) (c : C)
        → laws.is_open c ≡ true
        → AllCalm (f id items c).0) where
    after-calm :
        (o : Outcome RequestId) (s : Session C)
        → IsCalm o
        → laws.is_open s.unsolicited ≡ true
        → streamed (continue (λ id. streaming (f id)) o s).0 ≢ panicked
    after-calm (ok id) s k h = items-calm _ (calm id s.conn.stream.incoming s.unsolicited h)
    after-calm (err x) s k h = λ e. ground arith
    after-calm panic s k h = absurd (k.no_panic refl)

    -- A stream of results behind a command.
    stream-calm :
        (command : Bytes) (s : Session C)
        → laws.is_open s.unsolicited ≡ true
        → streamed ((run_command command >>= λ id. streaming (f id)) s).0 ≢ panicked
    stream-calm command s h =
        let k = Keeps-run_command laws command in
        after-calm (run_command command s).0 (run_command command s).1 (k.calm s h)
          (k.at s h).received.open_is

  list-calm :
      (reference pattern : Option Bytes) (asked : ℕ) (s : Session C)
      → laws.is_open s.unsolicited ≡ true
      → streamed (Mailboxes.list ch reference pattern asked s).0 ≢ panicked
  unfolding Mailboxes.list
  list-calm reference pattern asked = stream-calm _ (λ id. parse_names-AllCalm laws id asked) _

  lsub-calm :
      (reference pattern : Option Bytes) (asked : ℕ) (s : Session C)
      → laws.is_open s.unsolicited ≡ true
      → streamed (Mailboxes.lsub ch reference pattern asked s).0 ≢ panicked
  unfolding Mailboxes.lsub
  lsub-calm reference pattern asked = stream-calm _ (λ id. parse_names-AllCalm laws id asked) _

  fetch-calm :
      (set query : Bytes) (asked : ℕ) (s : Session C)
      → laws.is_open s.unsolicited ≡ true
      → streamed (Messages.fetch ch set query asked s).0 ≢ panicked
  unfolding Messages.fetch
  fetch-calm set query asked = stream-calm _ (λ id. parse_fetches-AllCalm laws id asked) _

  uid_fetch-calm :
      (set query : Bytes) (asked : ℕ) (s : Session C)
      → laws.is_open s.unsolicited ≡ true
      → streamed (Messages.uid_fetch ch set query asked s).0 ≢ panicked
  unfolding Messages.uid_fetch
  uid_fetch-calm set query asked = stream-calm _ (λ id. parse_fetches-AllCalm laws id asked) _

  expunge-calm :
      (asked : ℕ) (s : Session C)
      → laws.is_open s.unsolicited ≡ true
      → streamed (Messages.expunge ch asked s).0 ≢ panicked
  unfolding Messages.expunge
  expunge-calm asked = stream-calm _ (λ id. parse_expunge-AllCalm laws id asked) _

  uid_expunge-calm :
      (set : Bytes) (asked : ℕ) (s : Session C)
      → laws.is_open s.unsolicited ≡ true
      → streamed (Messages.uid_expunge ch set asked s).0 ≢ panicked
  unfolding Messages.uid_expunge
  uid_expunge-calm set asked = stream-calm _ (λ id. parse_expunge-AllCalm laws id asked) _

  store-calm :
      (set query : Bytes) (asked : ℕ) (s : Session C)
      → laws.is_open s.unsolicited ≡ true
      → streamed (Messages.store ch set query asked s).0 ≢ panicked
  unfolding Messages.store
  store-calm set query asked = stream-calm _ (λ id. parse_fetches-AllCalm laws id asked) _

  uid_store-calm :
      (set query : Bytes) (asked : ℕ) (s : Session C)
      → laws.is_open s.unsolicited ≡ true
      → streamed (Messages.uid_store ch set query asked s).0 ≢ panicked
  unfolding Messages.uid_store
  uid_store-calm set query asked = stream-calm _ (λ id. parse_fetches-AllCalm laws id asked) _

  -- No call on a session with an open channel panics, whatever the server sends and whichever writes
  -- fail.
  pub Step-calm :
      {s : Session C} {x : Ended} {q : Phase C}
      → Step ch (ready s) x q
      → laws.is_open s.unsolicited ≡ true
      → x ≢ panicked
  Step-calm (Steps.run_command s command) o =
      ended-calm _ ((Keeps-run_command laws command).calm s o)
  Step-calm (Steps.run_command_untagged s command) o =
      ended-calm _ ((Keeps-run_command_untagged laws command).calm s o)
  Step-calm (Steps.run_command_and_check_ok s command) o =
      ended-calm _ ((Keeps-run_command_and_check_ok laws command).calm s o)
  Step-calm (Steps.read_response s) o = ended-calm _ ((Keeps-read_response laws).calm s o)
  Step-calm (Steps.select s name) o = ended-calm _ ((select-Keeps laws name).calm s o)
  Step-calm (Steps.select_condstore s name) o =
      ended-calm _ ((select_condstore-Keeps laws name).calm s o)
  Step-calm (Steps.examine s name) o = ended-calm _ ((examine-Keeps laws name).calm s o)
  Step-calm (Steps.noop s) o = ended-calm _ ((noop-Keeps laws).calm s o)
  Step-calm (Steps.logout s) o = ended-calm _ ((logout-Keeps laws).calm s o)
  Step-calm (Steps.create s name) o = ended-calm _ ((create-Keeps laws name).calm s o)
  Step-calm (Steps.delete s name) o = ended-calm _ ((delete-Keeps laws name).calm s o)
  Step-calm (Steps.rename s from to) o = ended-calm _ ((rename-Keeps laws from to).calm s o)
  Step-calm (Steps.subscribe s name) o = ended-calm _ ((subscribe-Keeps laws name).calm s o)
  Step-calm (Steps.unsubscribe s name) o = ended-calm _ ((unsubscribe-Keeps laws name).calm s o)
  Step-calm (Steps.capabilities s) o = ended-calm _ ((capabilities-Keeps laws).calm s o)
  Step-calm (Steps.check s) o = ended-calm _ ((check-Keeps laws).calm s o)
  Step-calm (Steps.close s) o = ended-calm _ ((close-Keeps laws).calm s o)
  Step-calm (Steps.list s reference pattern asked) o = list-calm reference pattern asked s o
  Step-calm (Steps.lsub s reference pattern asked) o = lsub-calm reference pattern asked s o
  Step-calm (Steps.status s name data_items) o =
      ended-calm _ ((status-Keeps laws name data_items).calm s o)
  Step-calm (Steps.get_quota s root) o = ended-calm _ ((get_quota-Keeps laws root).calm s o)
  Step-calm (Steps.get_quota_root s name) o =
      ended-calm _ ((get_quota_root-Keeps laws name).calm s o)
  Step-calm (Steps.get_metadata s name options entry) o =
      ended-calm _ ((get_metadata-Keeps laws name options entry).calm s o)
  Step-calm (Steps.id s identification) o = ended-calm _ ((id-Keeps laws identification).calm s o)
  Step-calm (Steps.id_nil s) o = ended-calm _ ((id_nil-Keeps laws).calm s o)
  Step-calm (Steps.fetch s set query asked) o = fetch-calm set query asked s o
  Step-calm (Steps.uid_fetch s set query asked) o = uid_fetch-calm set query asked s o
  Step-calm (Steps.expunge s asked) o = expunge-calm asked s o
  Step-calm (Steps.uid_expunge s set asked) o = uid_expunge-calm set asked s o
  Step-calm (Steps.store s set query asked) o = store-calm set query asked s o
  Step-calm (Steps.uid_store s set query asked) o = uid_store-calm set query asked s o
  Step-calm (Steps.copy s set name) o = ended-calm _ ((copy-Keeps laws set name).calm s o)
  Step-calm (Steps.uid_copy s set name) o = ended-calm _ ((uid_copy-Keeps laws set name).calm s o)
  Step-calm (Steps.mv s set name) o = ended-calm _ ((mv-Keeps laws set name).calm s o)
  Step-calm (Steps.uid_mv s set name) o = ended-calm _ ((uid_mv-Keeps laws set name).calm s o)
  Step-calm (Steps.search s query) o = ended-calm _ ((search-Keeps laws query).calm s o)
  Step-calm (Steps.uid_search s query) o = ended-calm _ ((uid_search-Keeps laws query).calm s o)
  Step-calm (Steps.append s mailbox content) o =
      ended-calm _ ((append-Keeps laws mailbox content).calm s o)
  Step-calm (Steps.idle s) o = λ e. ground arith
