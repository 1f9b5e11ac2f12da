-- ===== src/Parse/Readers/Announced.antt =====
-- What `parse_capabilities` of src/parse.rs returns for a whole reply.
use async_imap.Base.{
  ◌≡◌, ◌↔◌, refl, ap, ◌∙◌, true, ◌||◌, Bool-cases, inl, inr, Option, List, [], ◌∷◌, ◌++◌, map,
  filter_map, flatten, foldl, arith,
}
use async_imap.Base.Text.{equal_iff}
use async_imap.Channel.{Channel, ChannelLaws}
use async_imap.Error.{Outcome, IoResult, ok, ◌>>=◌}
use async_imap.Parse.Loop.{
  Ending, tagged, eof, broken, ending_items, ending_rest, ending_outcome, Ends, Within,
  while_filtered-Ran,
}
use async_imap.Parse.Readers.{select_capabilities, insert_capabilities, parse_capabilities}
use async_imap.Parse.Received.{leftovers, Ran}
use async_imap.Proto.{RequestId, CapabilityRef}
use async_imap.Types.Capabilities.{
  Capability, auth, atom, Capabilities, from, same, member, insert, has,
}
use async_imap.Types.Wire.{ResponseData}

abbrev pub capabilities_in : ResponseData → Option (List CapabilityRef)
capabilities_in r = select_capabilities r.parsed

-- The capabilities of all `CAPABILITY` responses.
abbrev pub announced : List ResponseData → List CapabilityRef
announced before = flatten (filter_map capabilities_in before)

same_iff : (c d : Capability) → (same c d ≡ true) ↔ (c ≡ d)
unfolding same
same_iff (auth s) (auth t) = ground (arith, equal_iff s t)
same_iff (atom s) (atom t) = ground (arith, equal_iff s t)
same_iff _ _ = ground arith

already :
    (c d : Capability) (cs : List Capability)
    → member d cs ≡ true
    → member c cs ≡ (same d c || member c cs)
unfolding member
already c d [] h = ground arith
already c d (x ∷ cs) h = ground (arith, already c d cs, same_iff d c, same_iff x c, same_iff x d)

member-insert :
    (c d : Capability) (cs : List Capability) → member c (insert d cs) ≡ (same d c || member c cs)
unfolding insert
member-insert c d cs = elim (Bool-cases (member d cs)) [
  | inl old ↦ rw old (already c d cs old)
  | inr new ↦ rw new (unfold member in refl)
]

member-insert_capabilities :
    (c : Capability) (refs : List CapabilityRef) (cs : List Capability)
    → member c (insert_capabilities cs refs) ≡ (member c (map from refs) || member c cs)
unfolding insert_capabilities foldl member
member-insert_capabilities c [] cs = refl
member-insert_capabilities c (r ∷ refs) cs =
    ground
      (arith, member-insert_capabilities c refs (insert (from r) cs), member-insert c (from r) cs)

member-append :
    (c : Capability) (xs ys : List CapabilityRef)
    → member c (map from (xs ++ ys)) ≡ (member c (map from xs) || member c (map from ys))
unfolding member
member-append c [] ys = refl
member-append c (x ∷ xs) ys = ground (arith, member-append c xs ys)

member-foldl :
    (c : Capability) (groups : List (List CapabilityRef)) (cs : List Capability)
    → member c (foldl insert_capabilities cs groups)
      ≡ (member c (map from (flatten groups)) || member c cs)
unfolding foldl flatten
member-foldl c [] cs = unfold member in refl
member-foldl c (g ∷ groups) cs = ground (
  arith,
  member-foldl c groups (insert_capabilities cs g),
  member-insert_capabilities c g cs,
  member-append c g (flatten groups),
)

abbrev as_capabilities : List Capability → Outcome Capabilities
as_capabilities set = ok (record { set = set })

wrapped :
    (set : List Capability) (ending : Ending)
    → (ending_outcome set ending >>= as_capabilities) ≡ ending_outcome (record { set = set }) ending
wrapped set (tagged d after) = refl
wrapped set eof = refl
wrapped set (broken e after) = refl

module _ {C : Type 0} {ch : Channel C} (laws : ChannelLaws ch) where
  -- For an open channel and a reply that ends with its tagged response, the end of the stream or an
  -- error of it, `parse_capabilities` returns, unless there is an error of the stream, a value that
  -- has a capability exactly where some `CAPABILITY` response of the reply names it; the other
  -- responses are offered to the channel, in order, and what follows stays in the stream.
  pub parse_capabilities_lem :
      (tag : RequestId) (before : List ResponseData) (ending : Ending) (c : C)
      → Within tag before
      → Ends tag ending
      → laws.is_open c ≡ true
      → (caps : Capabilities) × Ran laws c
          (parse_capabilities ch tag (map IoResult.ok before ++ ending_items ending) c)
          (ending_outcome caps ending)
          (ending_rest ending)
          (leftovers capabilities_in before)
        × ((cap : Capability) → has caps cap ≡ member cap (map from (announced before)))
  unfolding parse_capabilities
  parse_capabilities_lem tag before ending c w e o =
      let groups = filter_map capabilities_in before in
      let set = foldl insert_capabilities [] groups in
      let run =
        while_filtered-Ran laws capabilities_in insert_capabilities tag before ending [] c w e o in
      (
        record { set = set },
        record {
          result_is = ap (λ t. t >>= as_capabilities) run.result_is ∙ wrapped set ending;
          rest_is = run.rest_is;
          received = run.received;
        },
        λ cap. unfold has in unannounced cap groups,
      )
    where
      unannounced :
          (cap : Capability) (groups : List (List CapabilityRef))
          → member cap (foldl insert_capabilities [] groups)
            ≡ member cap (map from (flatten groups))
      unannounced cap groups = member-foldl cap groups [] ∙ unfold member in ground arith
