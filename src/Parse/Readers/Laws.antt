-- ===== src/Parse/Readers/Laws.antt =====
-- What `parse_ids` of src/parse.rs returns for a whole reply.
use async_imap.Base.{
  ℕ, ◌≡◌, refl, ◌∙◌, true, false, ◌||◌, Bool-cases, inl, inr, Option, List, [], ◌∷◌, ◌++◌, map,
  ◌==◌, filter_map, flatten, foldl, arith,
}
use async_imap.Channel.{Channel, ChannelLaws}
use async_imap.Error.{IoResult}
use async_imap.Parse.Loop.{
  Ending, ending_items, ending_rest, ending_outcome, Ends, Within, while_filtered-Ran,
}
use async_imap.Parse.Readers.{select_ids, member, insert, insert_ids, parse_ids}
use async_imap.Parse.Received.{leftovers, Ran}
use async_imap.Proto.{RequestId}
use async_imap.Types.Wire.{ResponseData}

-- The numbers of all `SEARCH` responses.
abbrev pub ids_in : ResponseData → Option (List ℕ)
ids_in r = select_ids r.parsed

abbrev pub found_ids : List ResponseData → List ℕ
found_ids before = flatten (filter_map ids_in before)

-- A set holds each number at most once.
abbrev pub IsSetList : List ℕ → Type 0
IsSetList [] = Unit
IsSetList (n ∷ ns) = (member n ns ≡ false) × IsSetList ns

member-insert : (n m : ℕ) (ids : List ℕ) → member n (insert m ids) ≡ (m == n || member n ids)
unfolding insert member
member-insert n m ids = elim (Bool-cases (member m ids)) [
  | inl old ↦ rw old (already n m ids old)
  | inr new ↦ rw new
]
  where
    already :
        (n m : ℕ) (ids : List ℕ) → member m ids ≡ true → member n ids ≡ (m == n || member n ids)
    already n m [] h = ground arith
    already n m (x ∷ ids) h = ground (arith, already n m ids)

insert-IsSetList : (m : ℕ) (ids : List ℕ) → IsSetList ids → IsSetList (insert m ids)
unfolding insert
insert-IsSetList m ids h = elim (Bool-cases (member m ids)) [
  | inl old ↦ rw old h
  | inr new ↦ rw new (new, h)
]

insert_ids-IsSetList : (cs ids : List ℕ) → IsSetList ids → IsSetList (insert_ids ids cs)
unfolding insert_ids foldl
insert_ids-IsSetList [] ids h = h
insert_ids-IsSetList (c ∷ cs) ids h =
    insert_ids-IsSetList cs (insert c ids) (insert-IsSetList c ids h)

member-append : (n : ℕ) (xs ys : List ℕ) → member n (xs ++ ys) ≡ (member n xs || member n ys)
unfolding member
member-append n [] ys = refl
member-append n (x ∷ xs) ys = ground (arith, member-append n xs ys)

member-insert_ids :
    (n : ℕ) (cs ids : List ℕ) → member n (insert_ids ids cs) ≡ (member n cs || member n ids)
unfolding insert_ids foldl
member-insert_ids n [] ids = unfold member in refl
member-insert_ids n (c ∷ cs) ids =
    member-insert_ids n cs (insert c ids)
    ∙ rw (member-insert n c ids) (unfold member in ground arith)

foldl-insert_ids :
    (n : ℕ) (css : List (List ℕ)) (ids : List ℕ)
    → member n (foldl insert_ids ids css) ≡ (member n (flatten css) || member n ids)
unfolding foldl flatten
foldl-insert_ids n [] ids = unfold member in refl
foldl-insert_ids n (cs ∷ css) ids = ground (
  arith,
  foldl-insert_ids n css (insert_ids ids cs),
  member-insert_ids n cs ids,
  member-append n cs (flatten css),
)

foldl-IsSetList :
    (css : List (List ℕ)) (ids : List ℕ) → IsSetList ids → IsSetList (foldl insert_ids ids css)
unfolding foldl
foldl-IsSetList [] ids h = h
foldl-IsSetList (cs ∷ css) ids h =
    foldl-IsSetList css (insert_ids ids cs) (insert_ids-IsSetList cs ids h)

member-foldl :
    (n : ℕ) (css : List (List ℕ)) → member n (foldl insert_ids [] css) ≡ member n (flatten css)
member-foldl n css = foldl-insert_ids n css [] ∙ unfold member in ground arith

module _ {C : Type 0} {ch : Channel C} (laws : ChannelLaws ch) where
  -- For an open channel and a reply that ends with its tagged response, the end of the stream or an
  -- error of it, `parse_ids` returns a set that holds exactly the numbers of the `SEARCH` responses,
  -- each once, or the error of the stream; all other responses are offered to the channel, in order, and
  -- what follows stays in the stream.
  pub parse_ids_lem :
      (tag : RequestId) (before : List ResponseData) (ending : Ending) (c : C)
      → Within tag before
      → Ends tag ending
      → laws.is_open c ≡ true
      → (ids : List ℕ) × Ran laws c
          (parse_ids ch tag (map IoResult.ok before ++ ending_items ending) c)
          (ending_outcome ids ending)
          (ending_rest ending)
          (leftovers ids_in before)
        × IsSetList ids
        × ((n : ℕ) → member n ids ≡ member n (found_ids before))
  unfolding parse_ids
  parse_ids_lem tag before ending c w e o = (
    foldl insert_ids [] (filter_map ids_in before),
    while_filtered-Ran laws ids_in insert_ids tag before ending [] c w e o,
    foldl-IsSetList (filter_map ids_in before) [] tt,
    λ n. member-foldl n (filter_map ids_in before),
  )
