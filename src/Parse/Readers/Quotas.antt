-- ===== src/Parse/Readers/Quotas.antt =====
-- What `parse_get_quota` of src/extensions/quota.rs returns for a whole reply.
use async_imap.Base.{
  ◌≡◌, refl, ap, ◌∙◌, true, Option, none, some, List, [], ◌∷◌, ◌++◌, map, filter_map, foldl,
  last_or,
}
use async_imap.Base.Text.{codes}
use async_imap.Channel.{Channel, ChannelLaws}
use async_imap.Error.{IoResult, Outcome, ParseError, ok, err, ◌>>=◌}
use async_imap.Error
use async_imap.Parse.Loop.{
  Ending, tagged, eof, broken, ending_items, ending_rest, ending_outcome, Ends, Within,
  while_filtered-Ran,
}
use async_imap.Parse.Readers.{select_quota, parse_get_quota, quota_missing}
use async_imap.Parse.Received.{leftovers, Ran}
use async_imap.Proto.{RequestId}
use async_imap.Types.Quota.{Quota}
use async_imap.Types.Wire.{ResponseData}

abbrev pub quota_in : ResponseData → Option Quota
quota_in r = select_quota r.parsed

-- The error of a reply without a `QUOTA` response.
abbrev none_found : Error.Error
none_found =
    Error.parse (ParseError.expected_response_not_found (codes "Quota, no quota response found"))

-- The last quota, or the error that none was found; or the error of the stream.
abbrev pub quota_result : Option Quota → Ending → Outcome Quota
quota_result q (broken e after) = err (Error.io e)
quota_result (some q) (tagged d after) = ok q
quota_result none (tagged d after) = err none_found
quota_result (some q) eof = ok q
quota_result none eof = err none_found

last-foldl : (q : Option Quota) (qs : List Quota) → foldl (λ old q'. some q') q qs ≡ last_or q qs
unfolding foldl last_or
last-foldl q [] = refl
last-foldl q (x ∷ qs) = last-foldl (some x) qs

abbrev or_missing : Option Quota → Outcome Quota
or_missing = elim [ some q ↦ ok q | none ↦ err quota_missing ]

quota_result_lem :
    (q : Option Quota) (ending : Ending)
    → (ending_outcome q ending >>= or_missing) ≡ quota_result q ending
quota_result_lem (some q) (tagged d after) = refl
quota_result_lem none (tagged d after) = refl
quota_result_lem (some q) eof = refl
quota_result_lem none eof = refl
quota_result_lem q (broken e after) = refl

module _ {C : Type 0} {ch : Channel C} (laws : ChannelLaws ch) where
  -- For an open channel and a reply that ends with its tagged response, the end of the stream or an
  -- error of it, `parse_get_quota` returns the last `QUOTA` response, or fails where there is none, or
  -- returns the error of the stream; all other responses are offered to the channel, in order, and what
  -- follows stays in the stream.
  pub parse_get_quota_lem :
      (tag : RequestId) (before : List ResponseData) (ending : Ending) (c : C)
      → Within tag before
      → Ends tag ending
      → laws.is_open c ≡ true
      → Ran laws c
          (parse_get_quota ch tag (map IoResult.ok before ++ ending_items ending) c)
          (quota_result (last_or none (filter_map quota_in before)) ending)
          (ending_rest ending)
          (leftovers quota_in before)
  unfolding parse_get_quota
  parse_get_quota_lem tag before ending c w e o =
      let run = while_filtered-Ran laws quota_in (λ old q. some q) tag before ending none c w e o in
      record {
        result_is =
            ap (λ t. t >>= or_missing) run.result_is
            ∙ quota_result_lem _ ending
            ∙ ap (λ q. quota_result q ending) (last-foldl none (filter_map quota_in before));
        rest_is = run.rest_is;
        received = run.received;
      }
