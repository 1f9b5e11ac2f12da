-- ===== src/Parse/Mailbox/Fields.antt =====
-- What each field of the mailbox holds after the responses that `parse_mailbox` of src/parse.rs notes.
use async_imap.Base.{
  ℕ, ◌≡◌, refl, sym, ◌∙◌, Option, none, some, List, [], ◌∷◌, ◌++◌, append_assoc, append-nil, map,
  filter_map, flatten, foldl, last-foldl, last_or, cons_some, arith,
}
use async_imap.Parse.Mailbox.{note_code, note_datum}
use async_imap.Proto.{ResponseCode, Response, MailboxDatum}
use async_imap.Types.Flag
use async_imap.Types.Flag.{Flag}
use async_imap.Types.Mailbox.{Mailbox, default}

-- What a response that the reader takes note of makes of the mailbox.
unfoldable pub note : Mailbox → Response → Mailbox
unfolding note_code note_datum
note mailbox (Response.status_data status code information) = note_code mailbox code
note mailbox (Response.mailbox_data m) = note_datum mailbox m
note mailbox _ = mailbox

abbrev exists_in : Response → Option ℕ
exists_in (Response.mailbox_data (MailboxDatum.exists n)) = some n
exists_in _ = none

abbrev recent_in : Response → Option ℕ
recent_in (Response.mailbox_data (MailboxDatum.recent n)) = some n
recent_in _ = none

abbrev flags_in : Response → Option (List Flag)
flags_in (Response.mailbox_data (MailboxDatum.flags fs)) = some (map Flag.from fs)
flags_in _ = none

abbrev permanent_in : Response → Option (List Flag)
permanent_in (Response.status_data s (some (ResponseCode.permanent_flags fs)) i) =
    some (map Flag.from fs)
permanent_in _ = none

abbrev unseen_in : Response → Option ℕ
unseen_in (Response.status_data s (some (ResponseCode.unseen n)) i) = some n
unseen_in _ = none

abbrev uid_next_in : Response → Option ℕ
uid_next_in (Response.status_data s (some (ResponseCode.uid_next n)) i) = some n
uid_next_in _ = none

abbrev uid_validity_in : Response → Option ℕ
uid_validity_in (Response.status_data s (some (ResponseCode.uid_validity n)) i) = some n
uid_validity_in _ = none

abbrev modseq_in : Response → Option ℕ
modseq_in (Response.status_data s (some (ResponseCode.highest_mod_seq n)) i) = some n
modseq_in _ = none

-- Each number is that of the last response of its kind, and each list of flags holds those of all
-- responses of its kind, in order.
pub record Describes (rs : List Response) (mbox : Mailbox) : Type 0 where
  pub exists_is : some mbox.exists ≡ last_or (some 0) (filter_map exists_in rs)
  pub recent_is : some mbox.recent ≡ last_or (some 0) (filter_map recent_in rs)
  pub unseen_is : mbox.unseen ≡ last_or none (filter_map unseen_in rs)
  pub uid_next_is : mbox.uid_next ≡ last_or none (filter_map uid_next_in rs)
  pub uid_validity_is : mbox.uid_validity ≡ last_or none (filter_map uid_validity_in rs)
  pub modseq_is : mbox.highest_modseq ≡ last_or none (filter_map modseq_in rs)
  pub flags_is : mbox.flags ≡ flatten (filter_map flags_in rs)
  pub permanent_is : mbox.permanent_flags ≡ flatten (filter_map permanent_in rs)

append-foldl :
    (field : Mailbox → List Flag) (kind : Response → Option (List Flag))
    → ((m : Mailbox) (r : Response) → field (note m r) ≡ field m ++ flatten (cons_some (kind r) []))
    → (rs : List Response) (m : Mailbox)
    → field (foldl note m rs) ≡ field m ++ flatten (filter_map kind rs)
unfolding foldl filter_map flatten
append-foldl field kind step [] m = sym (append-nil _)
append-foldl field kind step (r ∷ rs) m =
    append-foldl field kind step rs (note m r) ∙ rw (step m r) (go (kind r))
  where
    go :
        (k : Option (List Flag))
        → (field m ++ flatten (cons_some k [])) ++ flatten (filter_map kind rs)
          ≡ field m ++ flatten (cons_some k (filter_map kind rs))
    go none = rw append-nil
    go (some fs) = rw (append-nil fs) (append_assoc (field m) fs (flatten (filter_map kind rs)))

note-exists :
    (m : Mailbox) (r : Response)
    → some (note m r).exists ≡ last_or (some m.exists) (cons_some (exists_in r) [])
unfolding note last_or
note-exists m r = ground arith

note-recent :
    (m : Mailbox) (r : Response)
    → some (note m r).recent ≡ last_or (some m.recent) (cons_some (recent_in r) [])
unfolding note last_or
note-recent m r = ground arith

note-unseen :
    (m : Mailbox) (r : Response) → (note m r).unseen ≡ last_or m.unseen (cons_some (unseen_in r) [])
unfolding note last_or
note-unseen m r = ground arith

note-uid_next :
    (m : Mailbox) (r : Response)
    → (note m r).uid_next ≡ last_or m.uid_next (cons_some (uid_next_in r) [])
unfolding note last_or
note-uid_next m r = ground arith

note-uid_validity :
    (m : Mailbox) (r : Response)
    → (note m r).uid_validity ≡ last_or m.uid_validity (cons_some (uid_validity_in r) [])
unfolding note last_or
note-uid_validity m r = ground arith

note-modseq :
    (m : Mailbox) (r : Response)
    → (note m r).highest_modseq ≡ last_or m.highest_modseq (cons_some (modseq_in r) [])
unfolding note last_or
note-modseq m r = ground arith

note-flags :
    (m : Mailbox) (r : Response) → (note m r).flags ≡ m.flags ++ flatten (cons_some (flags_in r) [])
unfolding note flatten
note-flags m (Response.mailbox_data (MailboxDatum.flags fs)) =
    rw (append-nil (map Flag.from fs)) refl
note-flags m (Response.mailbox_data d) = ground (arith, append-nil m.flags)
note-flags m r = ground (arith, append-nil m.flags)

note-permanent :
    (m : Mailbox) (r : Response)
    → (note m r).permanent_flags ≡ m.permanent_flags ++ flatten (cons_some (permanent_in r) [])
unfolding note flatten
note-permanent m (Response.status_data s (some (ResponseCode.permanent_flags fs)) i) =
    rw (append-nil (map Flag.from fs)) refl
note-permanent m r = ground (arith, append-nil m.permanent_flags)

-- The fields after all responses.
pub foldl-Describes : (rs : List Response) → Describes rs (foldl note default rs)
foldl-Describes rs = record {
  exists_is = last-foldl note (λ m. some m.exists) exists_in note-exists rs default;
  recent_is = last-foldl note (λ m. some m.recent) recent_in note-recent rs default;
  unseen_is = last-foldl note (λ m. m.unseen) unseen_in note-unseen rs default;
  uid_next_is = last-foldl note (λ m. m.uid_next) uid_next_in note-uid_next rs default;
  uid_validity_is =
      last-foldl note (λ m. m.uid_validity) uid_validity_in note-uid_validity rs default;
  modseq_is = last-foldl note (λ m. m.highest_modseq) modseq_in note-modseq rs default;
  flags_is = append-foldl (λ m. m.flags) flags_in note-flags rs default;
  permanent_is = append-foldl (λ m. m.permanent_flags) permanent_in note-permanent rs default;
}
