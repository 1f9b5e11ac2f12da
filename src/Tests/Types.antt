-- ===== src/Tests/Types.antt =====
-- The theorems on src/types at concrete values.
use async_imap.Base.{ℕ, Bool, true, ◌↔◌, ◌≡◌, refl, none, some, List, [], ◌∷◌, arith, find_map}
use async_imap.Base.Text.{codes, eq_ignore_ascii_case}
use async_imap.Error.{ok, panic}
use async_imap.Proto.{
  AttributeValue, SectionPath, MessageSection, Response, QuotaResourceRef, QuotaResourceNameRef,
}
use async_imap.Types.Capabilities.{atom, auth, Capabilities, has_str}
use async_imap.Types.Capabilities.HasStr.{has_str_panics, has_str_answers, Names, Holds}
use async_imap.Types.Fetch.{Fetch, new}
use async_imap.Types.Fetch.Readers.{Reads, new-Reads, old_header_in, old_text_in}
use async_imap.Types.Quota.{
  QuotaResource, storage, from_resource, get_usage_percentage, get_usage_percentage_panics,
}
use async_imap.Types.Wire.{ResponseData}

abbrev announced : Capabilities
announced = record { set = auth (codes "PLAIN") ∷ atom (codes "IDLE") ∷ [] }

asks_auth : Names (auth (codes "PLAIN")) (codes "auth=PLAIN")
unfolding eq_ignore_ascii_case
asks_auth = (codes "auth=", refl, refl, omega arith)

has_str_answers_example :
    (answer : Bool) × (has_str announced (codes "auth=PLAIN") ≡ ok answer)
    × ((answer ≡ true) ↔ Holds announced.set (auth (codes "PLAIN")))
has_str_answers_example =
    has_str_answers announced (auth (codes "PLAIN")) (codes "auth=PLAIN") asks_auth refl

has_str_panics_example : has_str announced (b'a' ∷ b'b' ∷ b'c' ∷ b'd' ∷ 195 ∷ 164 ∷ []) ≡ panic
has_str_panics_example =
    has_str_panics announced b'a' b'b' b'c' b'd' 195 164 [] (omega arith) (omega arith)

abbrev half_used : QuotaResource
half_used = record { name = storage; usage = 50; limit = 99 }

abbrev unlimited : QuotaResourceRef
unlimited = record { name = QuotaResourceNameRef.storage; usage = 3; limit = 0 }

get_usage_percentage_panics_example :
    (get_usage_percentage (from_resource unlimited) ≡ panic) ↔ ◌≡◌ {A = ℕ} 0 0
get_usage_percentage_panics_example = get_usage_percentage_panics unlimited

abbrev fetched : List AttributeValue
fetched =
    AttributeValue.uid 7
    ∷ AttributeValue.body_section (some (SectionPath.full MessageSection.header))
        (some (codes "Subject: x"))
    ∷ AttributeValue.uid 8
    ∷ []

abbrev fetch_response : ResponseData
fetch_response = record { owner = codes "* 1 FETCH"; parsed = Response.fetch 1 fetched }

new-Reads_example : (f : Fetch) × (new fetch_response ≡ ok f) × Reads f fetch_response 1 fetched
new-Reads_example = new-Reads (codes "* 1 FETCH") 1 fetched

abbrev read_fetch : Fetch
read_fetch = (new-Reads (codes "* 1 FETCH") 1 fetched).0

no_header : find_map old_header_in fetched ≡ none
unfolding find_map
no_header = refl

no_text : find_map old_text_in fetched ≡ none
unfolding find_map
no_text = refl
