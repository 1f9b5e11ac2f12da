-- ===== src/Client/Idle/Waiting.antt =====
-- The loop of `wait_with_timeout` in src/extensions/idle.rs: what it stays silent about, and what ends it.
use async_imap.Base.{
  arith, ap, inl, inr, ◌⊎◌, ◌≡◌, ◌≢◌, refl, ◌∙◌, true, Option, none, some, List, [], ◌∷◌, ◌++◌, map,
  filter_map, cons_some,
}
use async_imap.Channel.{Channel, ChannelLaws}
use async_imap.Client.Idle.{
  IdleResponse, manual_interrupt, timeout, new_data, Event, elapsed, interrupted, arrived, answer,
  keepalive, tagged, news, hear, wait_loop,
}
use async_imap.Error.{Error, IoError, IoResult, Outcome, ok, err}
use async_imap.Parse.{Item}
use async_imap.Parse.Received.{
  message, Received, Received-nil, Received-cons, handle_unilateral-Received, Ran,
}
use async_imap.Proto.{Status, Response}
use async_imap.Types.Wire.{ResponseData, UnsolicitedResponse}

-- A response that does not wake the client: `OK` without a tag, a continuation, a tagged response.
abbrev pub IsSilent : Response → Type 0
IsSilent (Response.status_data status code information) = status ≡ Status.ok
IsSilent (Response.continue _ _) = Unit
IsSilent (Response.done _ _ _ _) = Unit
IsSilent _ = ⊥

abbrev pub AllSilent : List ResponseData → Type 0
AllSilent [] = Unit
AllSilent (r ∷ rs) = IsSilent r.parsed × AllSilent rs

-- The silent responses that the caller may still see: the tagged ones, in the channel.
abbrev pub kept_by : ResponseData → Response → Option UnsolicitedResponse
kept_by r (Response.done _ _ _ _) = some (message r)
kept_by r _ = none

abbrev pub kept : ResponseData → Option UnsolicitedResponse
kept r = kept_by r r.parsed

-- What ends the wait.
pub data Wake : Type 0 where
  timer token : List Item → Wake
  data_arrived : ResponseData → List Item → Wake
  stream_ended : Wake
  stream_failed : IoError → List Item → Wake

abbrev pub wake_event : Wake → Event
wake_event (timer items) = elapsed
wake_event (token items) = interrupted
wake_event _ = arrived

abbrev pub wake_items : Wake → List Item
wake_items (timer items) = items
wake_items (token items) = items
wake_items (data_arrived r items) = IoResult.ok r ∷ items
wake_items stream_ended = []
wake_items (stream_failed e items) = IoResult.err e ∷ items

abbrev pub wake_rest : Wake → List Item
wake_rest (timer items) = items
wake_rest (token items) = items
wake_rest (data_arrived r items) = items
wake_rest stream_ended = []
wake_rest (stream_failed e items) = items

abbrev pub wake_outcome : Wake → Outcome IdleResponse
wake_outcome (timer items) = ok timeout
wake_outcome (token items) = ok manual_interrupt
wake_outcome (data_arrived r items) = ok (new_data r)
wake_outcome stream_ended = ok manual_interrupt
wake_outcome (stream_failed e items) = err (Error.io e)

-- A response that wakes the client: a `NO`, a `BAD`, a `BYE` or a `PREAUTH` without a tag, and all data.
abbrev pub IsNews : Response → Type 0
IsNews (Response.status_data status code information) = status ≢ Status.ok
IsNews (Response.continue _ _) = ⊥
IsNews (Response.done _ _ _ _) = ⊥
IsNews _ = Unit

abbrev pub IsWake : Wake → Type 0
IsWake (data_arrived r items) = IsNews r.parsed
IsWake _ = Unit

silent :
    (r : ResponseData) (x : Response)
    → IsSilent x
    → (hear x ≡ keepalive) × (kept_by r x ≡ none)
      ⊎ (hear x ≡ tagged) × (kept_by r x ≡ some (message r))
unfolding hear
silent r (Response.status_data Status.ok code information) q = inl (refl, refl)
silent r (Response.continue code information) q = inl (refl, refl)
silent r (Response.done tag status code information) q = inr (refl, refl)
silent r (Response.status_data s code information) q = inl (ground arith, refl)
silent r _ q = absurd q

awake : (x : Response) → IsNews x → hear x ≡ news
unfolding hear
awake (Response.status_data Status.ok code information) h = absurd (h refl)
awake (Response.status_data _ code information) h = refl
awake (Response.continue code information) h = absurd h
awake (Response.done tag status code information) h = absurd h
awake _ h = refl

module _ {C : Type 0} {ch : Channel C} (laws : ChannelLaws ch) where
  one_silent :
      (r : ResponseData) (events : List Event) (rest : List Item) (c : C)
      → IsSilent r.parsed
      → laws.is_open c ≡ true
      → (c' : C) × (wait_loop ch (arrived ∷ events) (IoResult.ok r ∷ rest) c
          ≡ wait_loop ch events rest c')
        × Received laws c (cons_some (kept r) []) c'
  unfolding wait_loop
  one_silent r events rest c q o = elim (silent r r.parsed q) [
    | inl (h, k) ↦ (c, rw (h, wait_loop) refl, rw k (Received-nil laws c o))
    | inr (h, k) ↦
        let (c', sent, got) = handle_unilateral-Received laws r c o in
        (c', rw (h, sent, wait_loop) refl, rw k got)
  ]

  wakes :
      (w : Wake) (later : List Event) (c : C)
      → IsWake w
      → wait_loop ch (wake_event w ∷ later) (wake_items w) c
        ≡ (answer (wake_outcome w), record { incoming = wake_rest w; chan = c })
  unfolding wait_loop
  wakes (timer items) later c h = refl
  wakes (token items) later c h = refl
  wakes (data_arrived r items) later c h = rw (awake r.parsed h, wait_loop) refl
  wakes stream_ended later c h = refl
  wakes (stream_failed e items) later c h = refl

  -- While idling, untagged `OK`s, continuations and tagged responses do not wake the client, however many
  -- arrive; only the tagged ones are offered to the channel. Then the timer gives `Timeout`, the stop
  -- token `ManualInterrupt`, any other response `NewData` with that response, an I/O error that error,
  -- and the end of the stream `ManualInterrupt` too. What follows stays in the stream. The channel is
  -- taken to be open.
  pub wait_loop_lem :
      (before : List ResponseData) (w : Wake) (later : List Event) (c : C)
      → AllSilent before
      → IsWake w
      → laws.is_open c ≡ true
      → Ran laws c
          (wait_loop ch
            (map (λ r. arrived) before ++ wake_event w ∷ later)
            (map IoResult.ok before ++ wake_items w)
            c)
          (answer (wake_outcome w))
          (wake_rest w)
          (filter_map kept before)
  unfolding filter_map
  wait_loop_lem [] w later c q h o =
      rw (wakes w later c h)
        (record { result_is = refl; rest_is = refl; received = Received-nil laws c o })
  wait_loop_lem (r ∷ before) w later c (q, qs) h o =
      let events = map (λ (r : ResponseData). arrived) before ++ wake_event w ∷ later in
      let (c', e, got) = one_silent r events (map IoResult.ok before ++ wake_items w) c q o in
      let tail = wait_loop_lem before w later c' qs h got.open_is in
      record {
        result_is = ap (λ t. t.0) e ∙ tail.result_is;
        rest_is = ap (λ t. t.1.incoming) e ∙ tail.rest_is;
        received = Received-cons laws (kept r) got (rw (ap (λ t. t.1.chan) e) tail.received);
      }
