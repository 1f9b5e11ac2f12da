-- ===== src/Client/Steps/Laws.antt =====
-- Any stretch of work on a session of src/client.rs, idling included: what it reads, what it passes on,
-- what it writes, and with which tags.
use async_imap.Base.{ℕ, ◌+◌, ◌^◌, ◌≤◌, ◌<◌, ◌≡◌, ◌≢◌, ◌∙◌, ap, true, List, ◌++◌, arith, length}
use async_imap.Channel.{Channel, ChannelLaws}
use async_imap.Client.Connection.{Connection, Sent}
use async_imap.Client.Connection.Writes.{tags}
use async_imap.Client.Idle
use async_imap.Client.Idle.Keeps.{init-Evolves, wait-Evolves, done-Evolves}
use async_imap.Client.Session
use async_imap.Client.Session.{Session}
use async_imap.Client.Steps
use async_imap.Client.Steps.{Ended, panicked, Phase, ready, session_of, Step, Reach, here, next}
use async_imap.Client.Steps.Calm.{Step-calm}
use async_imap.Client.Steps.Commands.{
  select-Keeps, select_condstore-Keeps, examine-Keeps, create-Keeps, delete-Keeps, subscribe-Keeps,
  unsubscribe-Keeps, get_quota-Keeps, get_quota_root-Keeps, noop-Keeps, logout-Keeps,
  capabilities-Keeps, check-Keeps, close-Keeps, id_nil-Keeps, rename-Keeps, list-Keeps, lsub-Keeps,
  status-Keeps, get_metadata-Keeps, id-Keeps, fetch-Keeps, uid_fetch-Keeps, store-Keeps,
  uid_store-Keeps, expunge-Keeps, uid_expunge-Keeps, copy-Keeps, uid_copy-Keeps, mv-Keeps,
  uid_mv-Keeps, search-Keeps, uid_search-Keeps, append-Keeps,
}
use async_imap.Client.Steps.Evolves.{Evolves, Evolves-refl, Evolves-append, Evolves-le}
use async_imap.Client.Steps.Keeps.{
  Keeps-run_command, Keeps-run_command_untagged, Keeps-run_command_and_check_ok,
  Keeps-read_response,
}
use async_imap.Parse.Received.{Received-bounded}
use async_imap.Types.IdGenerator.Drawn.{AllDistinct, Drawn-AllDistinct}

module _ {C : Type 0} {ch : Channel C} (laws : ChannelLaws ch) where
  pub Step-Evolves :
      {p q : Phase C} {x : Ended}
      → Step ch p x q
      → laws.is_open (session_of p).unsolicited ≡ true
      → Evolves laws 1 (session_of p) (session_of q)
  unfolding Idle.new
  Step-Evolves (Steps.run_command s command) o = (Keeps-run_command laws command).at s o
  Step-Evolves (Steps.run_command_untagged s command) o =
      Evolves-le laws (omega arith) ((Keeps-run_command_untagged laws command).at s o)
  Step-Evolves (Steps.run_command_and_check_ok s command) o =
      (Keeps-run_command_and_check_ok laws command).at s o
  Step-Evolves (Steps.read_response s) o =
      Evolves-le laws (omega arith) ((Keeps-read_response laws).at s o)
  Step-Evolves (Steps.select s name) o = (select-Keeps laws name).at s o
  Step-Evolves (Steps.select_condstore s name) o = (select_condstore-Keeps laws name).at s o
  Step-Evolves (Steps.examine s name) o = (examine-Keeps laws name).at s o
  Step-Evolves (Steps.create s name) o = (create-Keeps laws name).at s o
  Step-Evolves (Steps.delete s name) o = (delete-Keeps laws name).at s o
  Step-Evolves (Steps.subscribe s name) o = (subscribe-Keeps laws name).at s o
  Step-Evolves (Steps.unsubscribe s name) o = (unsubscribe-Keeps laws name).at s o
  Step-Evolves (Steps.get_quota s root) o = (get_quota-Keeps laws root).at s o
  Step-Evolves (Steps.get_quota_root s name) o = (get_quota_root-Keeps laws name).at s o
  Step-Evolves (Steps.noop s) o = (noop-Keeps laws).at s o
  Step-Evolves (Steps.logout s) o = (logout-Keeps laws).at s o
  Step-Evolves (Steps.capabilities s) o = (capabilities-Keeps laws).at s o
  Step-Evolves (Steps.check s) o = (check-Keeps laws).at s o
  Step-Evolves (Steps.close s) o = (close-Keeps laws).at s o
  Step-Evolves (Steps.id_nil s) o = (id_nil-Keeps laws).at s o
  Step-Evolves (Steps.rename s from to) o = (rename-Keeps laws from to).at s o
  Step-Evolves (Steps.list s reference pattern asked) o =
      (list-Keeps laws reference pattern asked).at s o
  Step-Evolves (Steps.lsub s reference pattern asked) o =
      (lsub-Keeps laws reference pattern asked).at s o
  Step-Evolves (Steps.status s name data_items) o = (status-Keeps laws name data_items).at s o
  Step-Evolves (Steps.get_metadata s name options entry) o =
      (get_metadata-Keeps laws name options entry).at s o
  Step-Evolves (Steps.id s identification) o = (id-Keeps laws identification).at s o
  Step-Evolves (Steps.fetch s set query asked) o = (fetch-Keeps laws set query asked).at s o
  Step-Evolves (Steps.uid_fetch s set query asked) o = (uid_fetch-Keeps laws set query asked).at s o
  Step-Evolves (Steps.store s set query asked) o = (store-Keeps laws set query asked).at s o
  Step-Evolves (Steps.uid_store s set query asked) o = (uid_store-Keeps laws set query asked).at s o
  Step-Evolves (Steps.expunge s asked) o = (expunge-Keeps laws asked).at s o
  Step-Evolves (Steps.uid_expunge s set asked) o = (uid_expunge-Keeps laws set asked).at s o
  Step-Evolves (Steps.copy s set name) o = (copy-Keeps laws set name).at s o
  Step-Evolves (Steps.uid_copy s set name) o = (uid_copy-Keeps laws set name).at s o
  Step-Evolves (Steps.mv s set name) o = (mv-Keeps laws set name).at s o
  Step-Evolves (Steps.uid_mv s set name) o = (uid_mv-Keeps laws set name).at s o
  Step-Evolves (Steps.search s query) o = (search-Keeps laws query).at s o
  Step-Evolves (Steps.uid_search s query) o = (uid_search-Keeps laws query).at s o
  Step-Evolves (Steps.append s mailbox content) o = (append-Keeps laws mailbox content).at s o
  Step-Evolves (Steps.idle s) o = Evolves-le laws {n = 0} (omega arith) (Evolves-refl laws s o)
  Step-Evolves (Steps.init h) o = init-Evolves laws h o
  Step-Evolves (Steps.wait h events) o =
      Evolves-le laws (omega arith) (wait-Evolves laws events h o)
  Step-Evolves (Steps.finish h e) o =
      Evolves-le laws (omega arith) (rw e at (done-Evolves laws h o))

  -- On a session with an open channel, after `n` calls of any kind, whatever the server sends and
  -- whichever writes fail: the items read are the first ones of the stream, each read once; of them some
  -- responses, each at most once and in order, are offered to the channel, which takes what fits and
  -- stays open with its capacity; what was written stands behind what was there; and the tags in it were
  -- drawn from the generator in order, `n` at most.
  pub Reach-Evolves :
      {p : Phase C} {n : ℕ} {q : Phase C}
      → Reach ch p n q
      → laws.is_open (session_of p).unsolicited ≡ true
      → Evolves laws n (session_of p) (session_of q)
  Reach-Evolves {p = p} here o = Evolves-refl laws (session_of p) o
  Reach-Evolves (next r st) o =
      let e = Reach-Evolves r o in
      Evolves-le laws (omega arith) (Evolves-append laws e (Step-Evolves st e.received.open_is))

  -- On a session with an open channel, at most 10000 calls of any kind, made before the counter of the
  -- tags wraps, write requests of which no two have the same tag.
  pub Reach-AllDistinct :
      {n : ℕ} {p q : Phase C}
      → Reach ch p n q
      → laws.is_open (session_of p).unsolicited ≡ true
      → n ≤ 10000
      → (session_of p).conn.request_ids.next + n < 2 ^ 64
      → (wrote : List Sent) × ((session_of q).conn.stream.sent
          ≡ (session_of p).conn.stream.sent ++ wrote)
        × AllDistinct (tags wrote)
  Reach-AllDistinct r o h w =
      let e = Reach-Evolves r o in
      (
        e.wrote,
        e.sent_is,
        Drawn-AllDistinct e.drawn (omega (arith, e.draws_le)) (omega (arith, e.draws_le)),
      )

  -- From a new session on, after any calls, the channel is open, its capacity is 100, and it holds 100
  -- messages at most.
  pub Reach-new :
      {n : ℕ} (conn : Connection) {q : Phase C}
      → Reach ch (ready (Session.new ch conn)) n q
      → (laws.is_open (session_of q).unsolicited ≡ true)
        × (laws.capacity (session_of q).unsolicited ≡ 100)
        × (length (laws.queue (session_of q).unsolicited) ≤ 100)
  unfolding Session.new
  Reach-new conn r =
      let (empty, room, opened) = laws.bounded_lem 100 in
      let e = Reach-Evolves r opened in
      (
        e.received.open_is,
        e.received.capacity_is ∙ room,
        omega (
          arith,
          Received-bounded laws e.received (omega (arith, room, ap length empty)),
          e.received.capacity_is,
          room,
        ),
      )

  -- From a new session on, after any calls, no call on the session panics, whatever the server sends
  -- and whichever writes fail: the channel is still open.
  pub Reach-calm :
      {n : ℕ} (conn : Connection) {s : Session C} {x : Ended} {q : Phase C}
      → Reach ch (ready (Session.new ch conn)) n (ready s)
      → Step ch (ready s) x q
      → x ≢ panicked
  Reach-calm conn r st = Step-calm laws st (Reach-new conn r).0
