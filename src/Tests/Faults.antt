-- ===== src/Tests/Faults.antt =====
-- A command at a session whose transport fails.
use async_imap.Base.{refl, inr, none, some, [], ◌∷◌}
use async_imap.Base.Text.{Bytes, codes}
use async_imap.Client.Faults.{Unsent, write_fault_reported}
use async_imap.Client.Mailboxes.{
  noop, logout, rename, subscribe, unsubscribe, capabilities, check, close, list, lsub, get_quota,
  get_quota_root, get_metadata, id, id_nil,
}
use async_imap.Client.Messages.{
  fetch, uid_fetch, expunge, uid_expunge, store, uid_store, copy, uid_copy, search, uid_search,
  append,
}
use async_imap.Client.Session.{Session}
use async_imap.Error.{IoError, IoKind, IoMessage, IoResult}
use async_imap.Proto.{Response}
use async_imap.Tests.Support.{Queue, queue_channel, empty_channel, connection, response}

abbrev failure : IoError
failure = record { kind = IoKind.other; message = IoMessage.text (codes "broken pipe") }

-- The line is written, its flush fails, and a response is there to be read.
abbrev stuck : Session Queue
stuck =
    let conn = connection (IoResult.ok (response (Response.expunge 7)) ∷ []) in
    record {
      conn = record conn { stream = record conn.stream { faults = none ∷ some failure ∷ [] } };
      unsolicited = empty_channel;
    }

abbrev inbox : Bytes
inbox = codes "INBOX"

abbrev star : Bytes
star = codes "*"

write_fault_reported_example :
    Unsent failure stuck (noop queue_channel stuck)
    × Unsent failure stuck (logout queue_channel stuck)
    × Unsent failure stuck (rename queue_channel inbox star stuck)
    × Unsent failure stuck (subscribe queue_channel inbox stuck)
    × Unsent failure stuck (unsubscribe queue_channel inbox stuck)
    × Unsent failure stuck (capabilities queue_channel stuck)
    × Unsent failure stuck (check queue_channel stuck)
    × Unsent failure stuck (close queue_channel stuck)
    × Unsent failure stuck (list queue_channel none (some star) 4 stuck)
    × Unsent failure stuck (lsub queue_channel none (some star) 4 stuck)
    × Unsent failure stuck (get_quota queue_channel inbox stuck)
    × Unsent failure stuck (get_quota_root queue_channel inbox stuck)
    × Unsent failure stuck (get_metadata queue_channel inbox star inbox stuck)
    × Unsent failure stuck (id queue_channel [] stuck)
    × Unsent failure stuck (id_nil queue_channel stuck)
    × Unsent failure stuck (fetch queue_channel inbox star 4 stuck)
    × Unsent failure stuck (uid_fetch queue_channel inbox star 4 stuck)
    × Unsent failure stuck (expunge queue_channel 4 stuck)
    × Unsent failure stuck (uid_expunge queue_channel inbox 4 stuck)
    × Unsent failure stuck (store queue_channel inbox star 4 stuck)
    × Unsent failure stuck (uid_store queue_channel inbox star 4 stuck)
    × Unsent failure stuck (copy queue_channel inbox star stuck)
    × Unsent failure stuck (uid_copy queue_channel inbox star stuck)
    × Unsent failure stuck (search queue_channel inbox stuck)
    × Unsent failure stuck (uid_search queue_channel inbox stuck)
    × Unsent failure stuck (append inbox star stuck)
write_fault_reported_example =
    write_fault_reported queue_channel failure inbox star inbox none (some star) [] 4 stuck
      (inr ([], refl))
