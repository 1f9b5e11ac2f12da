-- ===== src/Parse/Mailbox/Laws.antt =====
-- What `parse_mailbox` of src/parse.rs returns for a whole reply.
use async_imap.Base.{
  ◌≡◌, ◌≢◌, refl, ap, true, false, Option, none, some, List, [], ◌∷◌, ◌++◌, map, filter_map, foldl,
  cons_some, arith,
}
use async_imap.Base.Text.{Bytes, equal, equal_refl}
use async_imap.Channel.{Channel, ChannelLaws}
use async_imap.Error.{Error, IoError, IoResult, Outcome}
use async_imap.Parse.{Item}
use async_imap.Parse.Mailbox.{
  check_status, Round, go, mailbox_round, while_rounds, parse_mailbox, pass_on, leave, note_data,
}
use async_imap.Parse.Mailbox.Fields.{note, Describes, foldl-Describes}
use async_imap.Parse.Received.{
  message, Received, Received-nil, Received-cons, handle_unilateral-Received, Ran,
}
use async_imap.Proto.{RequestId, Status, ResponseCode, Response, MailboxDatum}
use async_imap.Types.Mailbox.{Mailbox, default}
use async_imap.Types.Wire.{ResponseData, UnsolicitedResponse}

-- A response after which the reader goes on: no completion of its own command, no failure in a status
-- response.
abbrev pub IsOpening : RequestId → Response → Type 0
IsOpening tag (Response.done t status code information) = equal t tag ≡ false
IsOpening tag (Response.status_data status code information) = status ≡ Status.ok
IsOpening tag _ = Unit

abbrev pub AllOpening : RequestId → List ResponseData → Type 0
AllOpening tag [] = Unit
AllOpening tag (r ∷ rs) = IsOpening tag r.parsed × AllOpening tag rs

-- The responses that go to the channel.
abbrev pub offered_by : ResponseData → Response → Option UnsolicitedResponse
offered_by r (Response.status_data _ _ _) = none
offered_by r (Response.mailbox_data (MailboxDatum.status _ _)) = some (message r)
offered_by r (Response.mailbox_data _) = none
offered_by r _ = some (message r)

abbrev pub offered : ResponseData → Option UnsolicitedResponse
offered r = offered_by r r.parsed

-- The item that ends the reading.
pub data Verdict : Type 0 where
  completed : Bytes → Status → Option ResponseCode → Option Bytes → List Item → Verdict
  failure : Bytes → Status → Option ResponseCode → Option Bytes → List Item → Verdict
  eof : Verdict
  broken : IoError → List Item → Verdict

abbrev pub verdict_items : RequestId → Verdict → List Item
verdict_items tag (completed o s c i after) =
    IoResult.ok (record { owner = o; parsed = Response.done tag s c i }) ∷ after
verdict_items tag (failure o s c i after) =
    IoResult.ok (record { owner = o; parsed = Response.status_data s c i }) ∷ after
verdict_items tag eof = []
verdict_items tag (broken e after) = IoResult.err e ∷ after

abbrev pub verdict_rest : Verdict → List Item
verdict_rest (completed o s c i after) = after
verdict_rest (failure o s c i after) = after
verdict_rest eof = []
verdict_rest (broken e after) = after

abbrev pub IsVerdict : Verdict → Type 0
IsVerdict (failure o s c i after) = s ≢ Status.ok
IsVerdict _ = Unit

-- The error that a status stands for, or the value.
abbrev pub by_status : Mailbox → Outcome (Unit {0}) → Outcome Mailbox
by_status mbox (Outcome.ok _) = Outcome.ok mbox
by_status mbox (Outcome.err e) = Outcome.err e
by_status mbox Outcome.panic = Outcome.panic

abbrev pub verdict_outcome : Mailbox → Verdict → Outcome Mailbox
verdict_outcome mbox (completed o s c i after) = by_status mbox (check_status s c i)
verdict_outcome mbox (failure o s c i after) = by_status mbox (check_status s c i)
verdict_outcome mbox eof = Outcome.ok mbox
verdict_outcome mbox (broken e after) = Outcome.err (Error.io e)

module _ {C : Type 0} {ch : Channel C} (laws : ChannelLaws ch) (tag : RequestId) where
  passed :
      (r : ResponseData) (m : Mailbox) (c : C)
      → laws.is_open c ≡ true
      → (c' : C) × (pass_on ch r m c ≡ go m c') × Received laws c (message r ∷ []) c'
  unfolding pass_on
  passed r m c o =
      let (c', sent, got) = handle_unilateral-Received laws r c o in
      (c', rw (sent, pass_on) refl, got)

  round_lem :
      (r : ResponseData) (x : Response) (m : Mailbox) (c : C)
      → IsOpening tag x
      → laws.is_open c ≡ true
      → (c' : C) × (mailbox_round ch tag r m c x ≡ go (note m x) c')
        × Received laws c (cons_some (offered_by r x) []) c'
  unfolding mailbox_round note note_data
  round_lem r (Response.done t s code i) m c h o = rw h (passed r m c o)
  round_lem r (Response.status_data s code i) m c h o =
      (c, unfold check_status in ground arith, Received-nil laws c o)
  round_lem r (Response.mailbox_data (MailboxDatum.status b as')) m c h o = passed r m c o
  round_lem r (Response.mailbox_data (MailboxDatum.exists n)) m c h o =
      (c, refl, Received-nil laws c o)
  round_lem r (Response.mailbox_data d) m c h o = (c, refl, Received-nil laws c o)
  round_lem r (Response.continue a b) m c h o = passed r m c o
  round_lem r x m c h o = passed r m c o

  round : ResponseData → Mailbox → C → Round C
  round resp mailbox c = mailbox_round ch tag resp mailbox c resp.parsed

  last_round_lem :
      (v : Verdict) (m : Mailbox) (c : C)
      → IsVerdict v
      → laws.is_open c ≡ true
      → while_rounds ch round m (verdict_items tag v) c
        ≡ (verdict_outcome m v, record { incoming = verdict_rest v; chan = c })
  unfolding while_rounds mailbox_round leave note_data check_status round
  last_round_lem (completed w s code i after) m c h o = ground (arith, equal_refl tag)
  last_round_lem (failure w s code i after) m c h o = ground arith
  last_round_lem eof m c h o = refl
  last_round_lem (broken e after) m c h o = refl

  rounds_lem :
      (before : List ResponseData) (v : Verdict) (m : Mailbox) (c : C)
      → AllOpening tag before
      → IsVerdict v
      → laws.is_open c ≡ true
      → Ran laws c
          (while_rounds ch round m (map IoResult.ok before ++ verdict_items tag v) c)
          (verdict_outcome (foldl note m (map (λ r. r.parsed) before)) v)
          (verdict_rest v)
          (filter_map offered before)
  unfolding foldl filter_map while_rounds round
  rounds_lem [] v m c a h o =
      let e = last_round_lem v m c h o in
      record {
        result_is = ap (λ r. r.0) e;
        rest_is = ap (λ r. r.1.incoming) e;
        received = rw e (Received-nil laws c o);
      }
  rounds_lem (r ∷ before) v m c (a, as') h o =
      let (c', went, got) = round_lem r r.parsed m c a o in
      let tail = rounds_lem before v (note m r.parsed) c' as' h got.open_is in
      rw (went, while_rounds, round)
        (record {
          result_is = tail.result_is;
          rest_is = tail.rest_is;
          received = Received-cons laws (offered r) got tail.received;
        })

  -- `parse_mailbox` on responses after which it goes on and then an item that ends the reading: the
  -- completion of its command (whatever its status), a status response that is no `OK`, the end of the
  -- stream or an I/O error. For an open channel, the result is the error of the status or of the stream,
  -- or else the mailbox in which each number is that of the last response of its kind and each list of
  -- flags holds those of all responses of its kind. The items after the ending item stay in the stream,
  -- and all responses but the noted ones are offered to the channel, in order.
  pub parse_mailbox_lem :
      (before : List ResponseData) (v : Verdict) (c : C)
      → AllOpening tag before
      → IsVerdict v
      → laws.is_open c ≡ true
      → (mbox : Mailbox) × Describes (map (λ r. r.parsed) before) mbox
        × Ran laws c
            (parse_mailbox ch tag (map IoResult.ok before ++ verdict_items tag v) c)
            (verdict_outcome mbox v)
            (verdict_rest v)
            (filter_map offered before)
  unfolding parse_mailbox round
  parse_mailbox_lem before v c a h o =
      let rs = map (λ r. r.parsed) before in
      (foldl note default rs, foldl-Describes rs, rounds_lem before v default c a h o)
