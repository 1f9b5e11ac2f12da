-- ===== src/Parse/Mailbox/Taken.antt =====
-- What `parse_mailbox` and `parse_status` of src/parse.rs do to the stream and the channel, whatever
-- the items are.
use async_imap.Base.{◌≡◌, refl, true, inl, inr, Option, List, [], ◌∷◌, Bool-cases}
use async_imap.Base.Text.{Bytes, equal}
use async_imap.Channel.{Channel, ChannelLaws}
use async_imap.Error.{IoResult, Outcome}
use async_imap.Error.Calm.{IsCalm, IsCalm-ok, IsCalm-err}
use async_imap.Parse.{Item, Feed}
use async_imap.Parse.Mailbox.{
  check_status, Round, go, break, fail, mailbox_round, status_round, while_rounds, parse_mailbox,
  parse_status, pass_on, leave, note_data,
}
use async_imap.Parse.Received.{handle_unilateral-Received}
use async_imap.Parse.Taken.{Reads, Reads-nil, Reads-one, Taken, Taken-nil, Taken-kept, Taken-passed}
use async_imap.Proto.{RequestId, Status, ResponseCode, Response, MailboxDatum}
use async_imap.Types.Mailbox.{Mailbox, default}
use async_imap.Types.Wire.{ResponseData}

module _ {C : Type 0} where
  -- The channel after a round.
  abbrev chan_after : Round C → C
  chan_after (go m c) = c
  chan_after (break m c) = c
  chan_after (fail o c) = c

  abbrev outcome_after : Round C → Outcome Mailbox
  outcome_after (go m c) = Outcome.ok m
  outcome_after (break m c) = Outcome.ok m
  outcome_after (fail o c) = o

check_status-IsCalm :
    (s : Status) (code : Option ResponseCode) (i : Option Bytes) → IsCalm (check_status s code i)
unfolding check_status
check_status-IsCalm Status.ok code i = IsCalm-ok
check_status-IsCalm Status.bad code i = IsCalm-err
check_status-IsCalm Status.no code i = IsCalm-err
check_status-IsCalm Status.other code i = IsCalm-err

module _ {C : Type 0} {ch : Channel C} (laws : ChannelLaws ch) where
  -- A round on `r` keeps the channel open, passes on `r` or nothing, and does not panic.
  record Keeps (r : ResponseData) (c : C) (x : Round C) : Type 0 where
    open_is : laws.is_open (chan_after x) ≡ true
    then_taken :
        (rest : List Item) (f : Feed C)
        → Taken laws rest (chan_after x) f
        → Taken laws (IoResult.ok r ∷ rest) c f
    calm : IsCalm (outcome_after x)

  Keeps-same :
      (r : ResponseData) (c : C) (x : Round C)
      → laws.is_open c ≡ true
      → chan_after x ≡ c
      → IsCalm (outcome_after x)
      → Keeps r c x
  Keeps-same r c x o e k = record {
    calm = k;
    open_is = rw e o;
    then_taken = λ rest f t. Taken-kept laws (IoResult.ok r) (rw e at t);
  }

  Keeps-pass_on :
      (r : ResponseData) (m : Mailbox) (c : C)
      → laws.is_open c ≡ true
      → Keeps r c (pass_on ch r m c)
  unfolding pass_on
  Keeps-pass_on r m c o =
      let (c', sent, got) = handle_unilateral-Received laws r c o in
      rw (sent, pass_on)
        (record {
          calm = IsCalm-ok;
          open_is = got.open_is;
          then_taken = λ rest f t. Taken-passed laws r got t;
        })

  leave_same : (m : Mailbox) (c : C) (o : Outcome (Unit {0})) → chan_after (leave ch m c o) ≡ c
  unfolding leave
  leave_same m c (Outcome.ok _) = refl
  leave_same m c (Outcome.err e) = refl
  leave_same m c Outcome.panic = refl

  leave-IsCalm :
      (m : Mailbox) (c : C) (o : Outcome (Unit {0}))
      → IsCalm o
      → IsCalm (outcome_after (leave ch m c o))
  unfolding leave
  leave-IsCalm m c (Outcome.ok _) k = IsCalm-ok
  leave-IsCalm m c (Outcome.err e) k = IsCalm-err
  leave-IsCalm m c Outcome.panic k = absurd (k.no_panic refl)

  note-IsCalm :
      (m : Mailbox) (c : C) (code : Option ResponseCode) (o : Outcome (Unit {0}))
      → IsCalm o
      → IsCalm (outcome_after (note_data ch m c code o))
  unfolding note_data
  note-IsCalm m c code (Outcome.ok _) k = IsCalm-ok
  note-IsCalm m c code (Outcome.err e) k = IsCalm-err
  note-IsCalm m c code Outcome.panic k = absurd (k.no_panic refl)

  note_same :
      (m : Mailbox) (c : C) (code : Option ResponseCode) (o : Outcome (Unit {0}))
      → chan_after (note_data ch m c code o) ≡ c
  unfolding note_data
  note_same m c code (Outcome.ok _) = refl
  note_same m c code (Outcome.err e) = refl
  note_same m c code Outcome.panic = refl

  mailbox_round-Keeps :
      (tag : RequestId) (r : ResponseData) (m : Mailbox) (c : C) (x : Response)
      → laws.is_open c ≡ true
      → Keeps r c (mailbox_round ch tag r m c x)
  unfolding mailbox_round
  mailbox_round-Keeps tag r m c (Response.done t s code i) o = elim (Bool-cases (equal t tag)) [
    | inl own ↦ rw own (
        Keeps-same r c _ o (leave_same m c (check_status s code i))
          (leave-IsCalm m c _ (check_status-IsCalm s code i)))
    | inr other ↦ rw other (Keeps-pass_on r m c o)
  ]
  mailbox_round-Keeps tag r m c (Response.status_data s code i) o =
      Keeps-same r c _ o (note_same m c code (check_status s code i))
        (note-IsCalm m c code _ (check_status-IsCalm s code i))
  mailbox_round-Keeps tag r m c (Response.mailbox_data (MailboxDatum.status _ _)) o =
      Keeps-pass_on r m c o
  mailbox_round-Keeps tag r m c (Response.mailbox_data _) o = Keeps-same r c _ o refl IsCalm-ok
  mailbox_round-Keeps tag r m c _ o = Keeps-pass_on r m c o

  status_round-Keeps :
      (name : Bytes) (tag : RequestId) (r : ResponseData) (m : Mailbox) (c : C) (x : Response)
      → laws.is_open c ≡ true
      → Keeps r c (status_round ch name tag r m c x)
  unfolding status_round
  status_round-Keeps name tag r m c (Response.done t s code i) o = elim (Bool-cases (equal t tag)) [
    | inl own ↦ rw own (
        Keeps-same r c _ o (leave_same m c (check_status s code i))
          (leave-IsCalm m c _ (check_status-IsCalm s code i)))
    | inr other ↦ rw other (Keeps-pass_on r m c o)
  ]
  status_round-Keeps name tag r m c (Response.mailbox_data (MailboxDatum.status box s)) o =
      elim (Bool-cases (equal box name)) [
        | inl asked ↦ rw asked (Keeps-same r c _ o refl IsCalm-ok)
        | inr other ↦ rw other (Keeps-pass_on r m c o)
      ]
  status_round-Keeps name tag r m c _ o = Keeps-pass_on r m c o

  module _ (round : ResponseData → Mailbox → C → Round C)
      (keeps : (r : ResponseData) (m : Mailbox) (c : C)
        → laws.is_open c ≡ true
        → Keeps r c (round r m c)) where
    after_round :
        (r : ResponseData) (rest : List Item) (c : C) (x : Round C)
        → Keeps r c x
        → ((m : Mailbox) (c' : C)
            → laws.is_open c' ≡ true
            → Reads laws rest c' (while_rounds ch round m rest c'))
        → Reads laws (IoResult.ok r ∷ rest) c (elim x as (λ _. Outcome Mailbox × Feed C) [
          | go m c' ↦ while_rounds ch round m rest c'
          | break m c' ↦ (Outcome.ok m, record { incoming = rest; chan = c' })
          | fail o c' ↦ (o, record { incoming = rest; chan = c' })
        ])
    after_round r rest c (go m c') k later =
        let l = later m c' k.open_is in
        record { taken = k.then_taken rest _ l.taken; calm = l.calm }
    after_round r rest c (break m c') k later = record {
      taken = k.then_taken rest _ (Taken-nil laws rest c' k.open_is);
      calm = IsCalm-ok;
    }
    after_round r rest c (fail o c') k later = record {
      taken = k.then_taken rest _ (Taken-nil laws rest c' k.open_is);
      calm = k.calm;
    }

    while_rounds-Reads :
        (items : List Item) (m : Mailbox) (c : C)
        → laws.is_open c ≡ true
        → Reads laws items c (while_rounds ch round m items c)
    unfolding while_rounds
    while_rounds-Reads [] m c o = Reads-nil laws _ [] c o IsCalm-ok
    while_rounds-Reads (IoResult.err e ∷ rest) m c o =
        Reads-one laws _ (IoResult.err e) rest c o IsCalm-err
    while_rounds-Reads (IoResult.ok r ∷ rest) m c o =
        after_round r rest c (round r m c) (keeps r m c o) (while_rounds-Reads rest)

  pub parse_mailbox-Reads :
      (tag : RequestId) (items : List Item) (c : C)
      → laws.is_open c ≡ true
      → Reads laws items c (parse_mailbox ch tag items c)
  unfolding parse_mailbox
  parse_mailbox-Reads tag items c =
      while_rounds-Reads _ (λ r m c'. mailbox_round-Keeps tag r m c' r.parsed) items default c

  pub parse_status-Reads :
      (name : Bytes) (tag : RequestId) (items : List Item) (c : C)
      → laws.is_open c ≡ true
      → Reads laws items c (parse_status ch name tag items c)
  unfolding parse_status
  parse_status-Reads name tag items c =
      while_rounds-Reads _ (λ r m c'. status_round-Keeps name tag r m c' r.parsed) items default c
