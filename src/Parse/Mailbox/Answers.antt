-- ===== src/Parse/Mailbox/Answers.antt =====
-- What `parse_status` of src/parse.rs returns for a whole reply.
use async_imap.Base.{
  ◌≡◌, refl, ap, true, inl, inr, none, some, List, [], ◌∷◌, ◌++◌, map, filter_map, flatten, foldl,
  arith, Option-cases,
}
use async_imap.Base.Text.{Bytes, equal_refl}
use async_imap.Channel.{Channel, ChannelLaws}
use async_imap.Error.{IoResult}
use async_imap.Parse.{filter_sync, done_with_other_tag, handle_unilateral}
use async_imap.Parse.Loop.{Within}
use async_imap.Parse.Mailbox.{
  check_status, Round, go, status_round, while_rounds, parse_status, pass_on, leave,
  note_attributes,
}
use async_imap.Parse.Mailbox.Laws.{
  Verdict, completed, failure, eof, broken, verdict_items, verdict_rest, verdict_outcome,
}
use async_imap.Parse.Reply.{filter_sync-IsPart}
use async_imap.Parse.Received.{
  leftovers, leftover_skip, leftover_take, Received-nil, Received-append,
  handle_unilateral-Received, Ran,
}
use async_imap.Proto.{RequestId, StatusAttribute, Response, MailboxDatum}
use async_imap.Types.Mailbox.{Mailbox, default}
use async_imap.Types.Wire.{ResponseData}
use async_imap.Parse.Mailbox.Reports.{
  attributes_of, attributes_in, Shows, foldl-Shows, foldl-flatten,
}

-- The items that may end the reading: a `failure` is none of them, as it goes to the channel.
abbrev pub EndsStatus : Verdict → Type 0
EndsStatus (failure owner s code information after) = ⊥
EndsStatus _ = Unit

module _ {C : Type 0} {ch : Channel C} (laws : ChannelLaws ch) (expected : Bytes)
    (tag : RequestId) where
  round : ResponseData → Mailbox → C → Round C
  round resp mbox c = status_round ch expected tag resp mbox c resp.parsed

  taken :
      (r : ResponseData) (x : Response) (m : Mailbox) (c : C) {attributes : List StatusAttribute}
      → attributes_of expected x ≡ some attributes
      → status_round ch expected tag r m c x ≡ go (note_attributes m attributes) c
  unfolding status_round
  taken r (Response.mailbox_data (MailboxDatum.status mailbox as')) m c h = ground arith
  taken r (Response.mailbox_data d) m c h = ground arith
  taken r x m c h = ground arith

  skipped :
      (r : ResponseData) (x : Response) (m : Mailbox) (c : C) {c' : C}
      → done_with_other_tag tag x ≡ true
      → attributes_of expected x ≡ none
      → handle_unilateral ch r c ≡ some c'
      → status_round ch expected tag r m c x ≡ go m c'
  unfolding status_round pass_on done_with_other_tag
  skipped r (Response.done t s code information) m c w h sent = ground arith
  skipped r (Response.mailbox_data (MailboxDatum.status mailbox as')) m c w h sent = ground arith
  skipped r (Response.mailbox_data d) m c w h sent = ground arith
  skipped r x m c w h sent = rw (sent, pass_on) refl

  ended :
      (v : Verdict) (m : Mailbox) (c : C)
      → EndsStatus v
      → while_rounds ch round m (verdict_items tag v) c
        ≡ (verdict_outcome m v, record { incoming = verdict_rest v; chan = c })
  unfolding while_rounds status_round leave check_status round
  ended (completed w s code i after) m c h = ground (arith, equal_refl tag)
  ended (failure w s code i after) m c h = absurd h
  ended eof m c h = refl
  ended (broken e after) m c h = refl

  rounds_lem :
      (before : List ResponseData) (v : Verdict) (m : Mailbox) (c : C)
      → Within tag before
      → EndsStatus v
      → laws.is_open c ≡ true
      → Ran laws c
          (while_rounds ch round m (map IoResult.ok before ++ verdict_items tag v) c)
          (verdict_outcome (foldl note_attributes m (filter_map (attributes_in expected) before)) v)
          (verdict_rest v)
          (leftovers (attributes_in expected) before)
  unfolding foldl filter_map while_rounds round filter_sync
  rounds_lem [] v m c w h o =
      let e = ended v m c h in
      record {
        result_is = ap (λ r. r.0) e;
        rest_is = ap (λ r. r.1.incoming) e;
        received = rw e (Received-nil laws c o);
      }
  rounds_lem (r ∷ before) v m c (in_reply, w) h o = elim (Option-cases (attributes_in expected r)) [
    | inl passed ↦
        let (c', sent, got) = handle_unilateral-Received laws r c o in
        let later = rounds_lem before v m c' w h got.open_is in
        rw
          (
            skipped r r.parsed m c (filter_sync-IsPart tag (IoResult.ok r) in_reply) passed sent,
            passed,
            leftover_skip (attributes_in expected) r passed,
            while_rounds,
            round,
          )
          (record {
            result_is = later.result_is;
            rest_is = later.rest_is;
            received = Received-append laws got later.received;
          })
    | inr (attributes, selected) ↦
        rw
          (
            taken r r.parsed m c selected,
            selected,
            leftover_take (attributes_in expected) r selected,
            while_rounds,
            round,
          )
          (rounds_lem before v (note_attributes m attributes) c w h o)
  ]

  -- `parse_status` on responses before the completion of its command, the end of the stream or an I/O
  -- error. For an open channel, the result is the error of the status or of the stream, or else a
  -- mailbox with no flags in which each number is that of the last attribute of its kind in the `STATUS`
  -- responses for the mailbox asked about. All other responses, those for other mailboxes and status
  -- responses of any kind included, are offered to the channel, in order, and what follows stays in the
  -- stream.
  pub parse_status_lem :
      (before : List ResponseData) (v : Verdict) (c : C)
      → Within tag before
      → EndsStatus v
      → laws.is_open c ≡ true
      → (mbox : Mailbox) × Shows (flatten (filter_map (attributes_in expected) before)) mbox
        × Ran laws c
            (parse_status ch expected tag (map IoResult.ok before ++ verdict_items tag v) c)
            (verdict_outcome mbox v)
            (verdict_rest v)
            (leftovers (attributes_in expected) before)
  unfolding parse_status round
  parse_status_lem before v c w h o =
      let groups = filter_map (attributes_in expected) before in
      (
        foldl note_attributes default groups,
        rw (foldl-flatten groups default) (foldl-Shows (flatten groups)),
        rounds_lem before v default c w h o,
      )
