-- ===== src/Client/Connection/Writes.antt =====
-- What the calls of `Connection` in src/client.rs write, whether or not the writes succeed.
use async_imap.Base.{
  ℕ, ◌≤◌, ◌≡◌, refl, sym, Option, none, some, List, [], ◌∷◌, ◌++◌, append_assoc, append-nil,
  filter_map, arith,
}
use async_imap.Base.Text.{Bytes}
use async_imap.Client.Connection.{Sent, Stream, Connection, write_with, put, take_id, run_command}
use async_imap.Error.{IoError}
use async_imap.Error.Calm.{IsCalm, IsCalm-ok, IsCalm-err}
use async_imap.Parse.{Item}
use async_imap.Proto.{RequestId}
use async_imap.Types.IdGenerator.{IdGenerator, next_id}
use async_imap.Types.IdGenerator.Drawn.{Drawn, done, unused, used}

-- The tag of what was written, if it is a request with a tag.
abbrev pub tag_in : Sent → Option RequestId
tag_in (Sent.request r) = r.tag
tag_in _ = none

-- The tags of all that was written, in order.
abbrev pub tags : List Sent → List RequestId
tags = filter_map tag_in

-- From one connection to the other: what was written, and the tags drawn for it, `n` at most.
pub record Writes (n : ℕ) (conn conn' : Connection) : Type 0 where
  pub wrote : List Sent
  pub draws : ℕ
  pub draws_le : draws ≤ n
  pub incoming_is : conn'.stream.incoming ≡ conn.stream.incoming
  pub sent_is : conn'.stream.sent ≡ conn.stream.sent ++ wrote
  pub drawn : Drawn draws conn.request_ids (tags wrote) conn'.request_ids

-- One write without a tag, which may fail.
write_with-Writes :
    (faults : List (Option IoError)) (what : Sent) (conn : Connection)
    → tag_in what ≡ none
    → Writes 0 conn (record conn { stream = (write_with faults what conn.stream).1 })
unfolding write_with filter_map
write_with-Writes [] what conn t = record {
  wrote = what ∷ [];
  draws = 0;
  draws_le = omega arith;
  incoming_is = refl;
  sent_is = refl;
  drawn = rw t (done conn.request_ids);
}
write_with-Writes (none ∷ faults) what conn t = record {
  wrote = what ∷ [];
  draws = 0;
  draws_le = omega arith;
  incoming_is = refl;
  sent_is = refl;
  drawn = rw t (done conn.request_ids);
}
write_with-Writes (some e ∷ faults) what conn t = record {
  wrote = [];
  draws = 0;
  draws_le = omega arith;
  incoming_is = refl;
  sent_is = sym (append-nil conn.stream.sent);
  drawn = done conn.request_ids;
}

pub put-Writes :
    (what : Sent) (conn : Connection) → tag_in what ≡ none → Writes 0 conn (put what conn).1
unfolding put
put-Writes what conn = write_with-Writes conn.stream.faults what conn

-- The cases of the two writes of a command: both succeed, the first fails, or the second does.
module _ (command : Bytes) (incoming : List Item) (sent : List Sent) (ids : IdGenerator) where
  abbrev at_faults : List (Option IoError) → Connection
  at_faults faults = record {
    stream = record { incoming = incoming; sent = sent; faults = faults };
    request_ids = ids;
  }

  abbrev line : Sent
  line = Sent.request (record { tag = some (next_id ids).0; body = command })

  -- The connection after the draw of the tag, with other writes and faults.
  abbrev drawn_at : List Sent → List (Option IoError) → Connection
  drawn_at sent' faults = record {
    stream = record { incoming = incoming; sent = sent'; faults = faults };
    request_ids = (next_id ids).1;
  }

  both :
      (faults rest : List (Option IoError))
      → Writes 1 (at_faults faults) (drawn_at ((sent ++ line ∷ []) ++ Sent.flushed ∷ []) rest)
  unfolding filter_map
  both faults rest = record {
    wrote = line ∷ Sent.flushed ∷ [];
    draws = 1;
    draws_le = omega arith;
    incoming_is = refl;
    sent_is = append_assoc sent (line ∷ []) (Sent.flushed ∷ []);
    drawn = used ids (done (next_id ids).1);
  }

  first_only :
      (faults rest : List (Option IoError))
      → Writes 1 (at_faults faults) (drawn_at (sent ++ line ∷ []) rest)
  unfolding filter_map
  first_only faults rest = record {
    wrote = line ∷ [];
    draws = 1;
    draws_le = omega arith;
    incoming_is = refl;
    sent_is = refl;
    drawn = used ids (done (next_id ids).1);
  }

  neither : (faults rest : List (Option IoError)) → Writes 1 (at_faults faults) (drawn_at sent rest)
  unfolding filter_map
  neither faults rest = record {
    wrote = [];
    draws = 1;
    draws_le = omega arith;
    incoming_is = refl;
    sent_is = sym (append-nil sent);
    drawn = unused ids (done (next_id ids).1);
  }

  run_command-Writes_at :
      (faults : List (Option IoError))
      → Writes 1 (at_faults faults) (run_command command (at_faults faults)).1
  unfolding run_command put write_with take_id
  run_command-Writes_at [] = both [] []
  run_command-Writes_at (none ∷ []) = both (none ∷ []) []
  run_command-Writes_at (none ∷ none ∷ rest) = both (none ∷ none ∷ rest) rest
  run_command-Writes_at (none ∷ some e ∷ rest) = first_only (none ∷ some e ∷ rest) rest
  run_command-Writes_at (some e ∷ rest) = neither (some e ∷ rest) rest

-- A command draws one tag, and writes it at most once, whether or not its writes succeed.
pub run_command-Writes :
    (command : Bytes) (conn : Connection) → Writes 1 conn (run_command command conn).1
run_command-Writes command conn =
    run_command-Writes_at command conn.stream.incoming conn.stream.sent conn.request_ids
      conn.stream.faults

-- No write panics.
write_with-IsCalm :
    (faults : List (Option IoError)) (what : Sent) (s : Stream)
    → IsCalm (write_with faults what s).0
unfolding write_with
write_with-IsCalm [] what s = IsCalm-ok
write_with-IsCalm (none ∷ faults) what s = IsCalm-ok
write_with-IsCalm (some e ∷ faults) what s = IsCalm-err

pub put-IsCalm : (what : Sent) (conn : Connection) → IsCalm (put what conn).0
unfolding put
put-IsCalm what conn = write_with-IsCalm conn.stream.faults what conn.stream

run_command-IsCalm_at :
    (command : Bytes) (incoming : List Item) (sent : List Sent) (ids : IdGenerator)
    (faults : List (Option IoError))
    → IsCalm (run_command command (at_faults command incoming sent ids faults)).0
unfolding run_command put write_with take_id
run_command-IsCalm_at command incoming sent ids [] = IsCalm-ok
run_command-IsCalm_at command incoming sent ids (none ∷ []) = IsCalm-ok
run_command-IsCalm_at command incoming sent ids (none ∷ none ∷ rest) = IsCalm-ok
run_command-IsCalm_at command incoming sent ids (none ∷ some e ∷ rest) = IsCalm-err
run_command-IsCalm_at command incoming sent ids (some e ∷ rest) = IsCalm-err

pub run_command-IsCalm : (command : Bytes) (conn : Connection) → IsCalm (run_command command conn).0
run_command-IsCalm command conn =
    run_command-IsCalm_at command conn.stream.incoming conn.stream.sent conn.request_ids
      conn.stream.faults
