-- ===== src/Tests/Repository/Readers.antt =====
-- The tests of src/parse.rs on readers whose replies hold no other response.
use async_imap.Base.{ℕ, ◌≡◌, refl, true, some, none, List, [], ◌∷◌}
use async_imap.Base.Text.{codes}
use async_imap.Error.{Error, Outcome, ok, err}
use async_imap.Parse.{Feed}
use async_imap.Parse.Mailbox.{parse_mailbox}
use async_imap.Parse.Readers.{parse_names, parse_fetches, parse_capabilities, parse_ids}
use async_imap.Proto.{Status, MailboxDatum, AttributeValue, CapabilityRef, Response}
use async_imap.Tests.Support.{Queue, queue_channel, response}
use async_imap.Types.Capabilities
use async_imap.Types.Capabilities.{Capabilities}
use async_imap.Types.Fetch
use async_imap.Types.Fetch.{Fetch}
use async_imap.Types.Wire.{Name}
use async_imap.Types.Flag
use async_imap.Types.Mailbox.{Mailbox}
use async_imap.Tests.Repository.{input_stream, four_capabilities}

abbrev first_fetch : Fetch
first_fetch = record {
  response = response (
      Response.fetch 24
        (AttributeValue.flags (codes "\\Seen" ∷ []) ∷ AttributeValue.uid 4827943 ∷ []));
  message = 24;
  uid = some 4827943;
  size = none;
  modseq = none;
}

abbrev second_fetch : Fetch
second_fetch = record {
  response = response (Response.fetch 25 (AttributeValue.flags (codes "\\Seen" ∷ []) ∷ []));
  message = 25;
  uid = none;
  size = none;
  modseq = none;
}

-- The set that holds two capabilities.
abbrev two_capabilities : Capabilities
two_capabilities = record {
  set = Capabilities.atom (codes "STARTTLS") ∷ Capabilities.imap4rev1 ∷ [];
}

abbrev parse_capability_test : Outcome Capabilities × Feed Queue
parse_capability_test =
    parse_capabilities queue_channel (codes "A0001")
      (input_stream (
        Response.capabilities (
          CapabilityRef.imap4rev1
          ∷ CapabilityRef.atom (codes "STARTTLS")
          ∷ CapabilityRef.auth (codes "GSSAPI")
          ∷ CapabilityRef.atom (codes "LOGINDISABLED")
          ∷ [])
        ∷ []))
      (queue_channel.bounded 10)

parse_capability_test_passes :
    (parse_capability_test.1.chan.messages ≡ [])
    × (parse_capability_test.0 ≡ ok four_capabilities)
    × (Capabilities.len four_capabilities ≡ 4)
    × (Capabilities.has_str four_capabilities (codes "IMAP4rev1") ≡ ok true)
    × (Capabilities.has_str four_capabilities (codes "STARTTLS") ≡ ok true)
    × (Capabilities.has_str four_capabilities (codes "AUTH=GSSAPI") ≡ ok true)
    × (Capabilities.has_str four_capabilities (codes "LOGINDISABLED") ≡ ok true)
unfolding parse_capabilities async_imap.Parse.while_filtered async_imap.Parse.filter_sync
    async_imap.Base.foldl Capabilities.insert Capabilities.member Capabilities.same
    Capabilities.from async_imap.Base.Text.equal Capabilities.len Capabilities.has_str
    async_imap.Base.Text.eq_ignore_ascii_case Capabilities.has
parse_capability_test_passes = (refl, refl, refl, refl, refl, refl, refl)

abbrev parse_capability_case_insensitive_test : Outcome Capabilities × Feed Queue
parse_capability_case_insensitive_test =
    parse_capabilities queue_channel (codes "A0001")
      (input_stream (
        Response.capabilities (CapabilityRef.imap4rev1 ∷ CapabilityRef.atom (codes "STARTTLS") ∷ [])
        ∷ []))
      (queue_channel.bounded 10)

parse_capability_case_insensitive_test_passes :
    (parse_capability_case_insensitive_test.1.chan.messages ≡ [])
    × (parse_capability_case_insensitive_test.0 ≡ ok two_capabilities)
    × (Capabilities.len two_capabilities ≡ 2)
    × (Capabilities.has_str two_capabilities (codes "IMAP4rev1") ≡ ok true)
    × (Capabilities.has_str two_capabilities (codes "STARTTLS") ≡ ok true)
unfolding parse_capabilities async_imap.Parse.while_filtered async_imap.Parse.filter_sync
    async_imap.Base.foldl Capabilities.insert Capabilities.member Capabilities.same
    Capabilities.from Capabilities.len Capabilities.has_str
    async_imap.Base.Text.eq_ignore_ascii_case Capabilities.has async_imap.Base.Text.equal
parse_capability_case_insensitive_test_passes = (refl, refl, refl, refl, refl)

abbrev parse_names_test : List (Outcome Name) × Feed Queue
parse_names_test =
    parse_names queue_channel (codes "A0001") 10
      (input_stream (
        Response.mailbox_data
          (MailboxDatum.list (codes "\\HasNoChildren" ∷ []) (some (codes ".")) (codes "INBOX"))
        ∷ []))
      (queue_channel.bounded 10)

parse_names_test_passes :
    (parse_names_test.1.chan.messages ≡ [])
    × (parse_names_test.0
        ≡ ok (record {
          owner = response (
              Response.mailbox_data (
                MailboxDatum.list
                  (codes "\\HasNoChildren" ∷ [])
                  (some (codes "."))
                  (codes "INBOX")));
          attributes = codes "\\HasNoChildren" ∷ [];
          delimiter = some (codes ".");
          name = codes "INBOX";
        })
          ∷ [])
unfolding parse_names async_imap.Parse.take_filtered async_imap.Parse.filter_sync
    async_imap.Types.Wire.from_mailbox_data
parse_names_test_passes = (refl, refl)

abbrev parse_fetches_empty : List (Outcome Fetch) × Feed Queue
parse_fetches_empty =
    parse_fetches queue_channel (codes "a") 10 (input_stream ([])) (queue_channel.bounded 10)

parse_fetches_empty_passes :
    (parse_fetches_empty.1.chan.messages ≡ []) × (parse_fetches_empty.0 ≡ [])
unfolding parse_fetches async_imap.Parse.take_filtered
parse_fetches_empty_passes = (refl, refl)

abbrev parse_fetches_test : List (Outcome Fetch) × Feed Queue
parse_fetches_test =
    parse_fetches queue_channel (codes "a") 10
      (input_stream (
        Response.fetch 24
          (AttributeValue.flags (codes "\\Seen" ∷ []) ∷ AttributeValue.uid 4827943 ∷ [])
        ∷ Response.fetch 25 (AttributeValue.flags (codes "\\Seen" ∷ []) ∷ [])
        ∷ []))
      (queue_channel.bounded 10)

parse_fetches_test_passes :
    (parse_fetches_test.1.chan.messages ≡ [])
    × (parse_fetches_test.0 ≡ ok first_fetch ∷ ok second_fetch ∷ [])
    × (Fetch.flags first_fetch ≡ ok (Flag.seen ∷ []))
    × (Fetch.body first_fetch ≡ ok none)
    × (Fetch.header first_fetch ≡ ok none)
    × (Fetch.flags second_fetch ≡ ok (Flag.seen ∷ []))
    × (Fetch.body second_fetch ≡ ok none)
    × (Fetch.header second_fetch ≡ ok none)
unfolding parse_fetches async_imap.Parse.take_filtered async_imap.Parse.filter_sync Fetch.new
    Fetch.flags async_imap.Base.flatten async_imap.Base.filter_map Flag.from
    async_imap.Base.Text.equal Fetch.body async_imap.Base.find_map Fetch.header
parse_fetches_test_passes = (refl, refl, refl, refl, refl, refl, refl, refl)

abbrev parse_ids_test : Outcome (List ℕ) × Feed Queue
parse_ids_test =
    parse_ids queue_channel (codes "A0001")
      (input_stream (
        Response.mailbox_data (
          MailboxDatum.search (
            1600 ∷ 1698 ∷ 1739 ∷ 1781 ∷ 1795 ∷ 1885 ∷ 1891 ∷ 1892 ∷ 1893 ∷ 1898 ∷ 1899 ∷ 1901 ∷ 1911
            ∷ 1926 ∷ 1932 ∷ 1933 ∷ 1993 ∷ 1994 ∷ 2007 ∷ 2032 ∷ 2033 ∷ 2041 ∷ 2053 ∷ 2062 ∷ 2063
            ∷ 2065 ∷ 2066 ∷ 2072 ∷ 2078 ∷ 2079 ∷ 2082 ∷ 2084 ∷ 2095 ∷ 2100 ∷ 2101 ∷ 2102 ∷ 2103
            ∷ 2104 ∷ 2107 ∷ 2116 ∷ 2120 ∷ 2135 ∷ 2138 ∷ 2154 ∷ 2163 ∷ 2168 ∷ 2172 ∷ 2189 ∷ 2193
            ∷ 2198 ∷ 2199 ∷ 2205 ∷ 2212 ∷ 2213 ∷ 2221 ∷ 2227 ∷ 2267 ∷ 2275 ∷ 2276 ∷ 2295 ∷ 2300
            ∷ 2328 ∷ 2330 ∷ 2332 ∷ 2333 ∷ 2334 ∷ []))
        ∷ Response.mailbox_data (
            MailboxDatum.search (
              2335 ∷ 2336 ∷ 2337 ∷ 2338 ∷ 2339 ∷ 2341 ∷ 2342 ∷ 2347 ∷ 2349 ∷ 2350 ∷ 2358 ∷ 2359
              ∷ 2362 ∷ 2369 ∷ 2371 ∷ 2372 ∷ 2373 ∷ 2374 ∷ 2375 ∷ 2376 ∷ 2377 ∷ 2378 ∷ 2379 ∷ 2380
              ∷ 2381 ∷ 2382 ∷ 2383 ∷ 2384 ∷ 2385 ∷ 2386 ∷ 2390 ∷ 2392 ∷ 2397 ∷ 2400 ∷ 2401 ∷ 2403
              ∷ 2405 ∷ 2409 ∷ 2411 ∷ 2414 ∷ 2417 ∷ 2419 ∷ 2420 ∷ 2424 ∷ 2426 ∷ 2428 ∷ 2439 ∷ 2454
              ∷ 2456 ∷ 2467 ∷ 2468 ∷ 2469 ∷ 2490 ∷ 2515 ∷ 2519 ∷ 2520 ∷ 2521 ∷ []))
        ∷ []))
      (queue_channel.bounded 10)

parse_ids_test_passes :
    (parse_ids_test.1.chan.messages ≡ [])
    × (parse_ids_test.0
        ≡ ok (
            2521 ∷ 2520 ∷ 2519 ∷ 2515 ∷ 2490 ∷ 2469 ∷ 2468 ∷ 2467 ∷ 2456 ∷ 2454 ∷ 2439 ∷ 2428 ∷ 2426
            ∷ 2424 ∷ 2420 ∷ 2419 ∷ 2417 ∷ 2414 ∷ 2411 ∷ 2409 ∷ 2405 ∷ 2403 ∷ 2401 ∷ 2400 ∷ 2397
            ∷ 2392 ∷ 2390 ∷ 2386 ∷ 2385 ∷ 2384 ∷ 2383 ∷ 2382 ∷ 2381 ∷ 2380 ∷ 2379 ∷ 2378 ∷ 2377
            ∷ 2376 ∷ 2375 ∷ 2374 ∷ 2373 ∷ 2372 ∷ 2371 ∷ 2369 ∷ 2362 ∷ 2359 ∷ 2358 ∷ 2350 ∷ 2349
            ∷ 2347 ∷ 2342 ∷ 2341 ∷ 2339 ∷ 2338 ∷ 2337 ∷ 2336 ∷ 2335 ∷ 2334 ∷ 2333 ∷ 2332 ∷ 2330
            ∷ 2328 ∷ 2300 ∷ 2295 ∷ 2276 ∷ 2275 ∷ 2267 ∷ 2227 ∷ 2221 ∷ 2213 ∷ 2212 ∷ 2205 ∷ 2199
            ∷ 2198 ∷ 2193 ∷ 2189 ∷ 2172 ∷ 2168 ∷ 2163 ∷ 2154 ∷ 2138 ∷ 2135 ∷ 2120 ∷ 2116 ∷ 2107
            ∷ 2104 ∷ 2103 ∷ 2102 ∷ 2101 ∷ 2100 ∷ 2095 ∷ 2084 ∷ 2082 ∷ 2079 ∷ 2078 ∷ 2072 ∷ 2066
            ∷ 2065 ∷ 2063 ∷ 2062 ∷ 2053 ∷ 2041 ∷ 2033 ∷ 2032 ∷ 2007 ∷ 1994 ∷ 1993 ∷ 1933 ∷ 1932
            ∷ 1926 ∷ 1911 ∷ 1901 ∷ 1899 ∷ 1898 ∷ 1893 ∷ 1892 ∷ 1891 ∷ 1885 ∷ 1795 ∷ 1781 ∷ 1739
            ∷ 1698 ∷ 1600 ∷ []))
unfolding parse_ids async_imap.Parse.while_filtered async_imap.Parse.filter_sync
    async_imap.Base.foldl async_imap.Parse.Readers.insert
parse_ids_test_passes = (refl, refl)

abbrev parse_ids_search : Outcome (List ℕ) × Feed Queue
parse_ids_search =
    parse_ids queue_channel (codes "A0001")
      (input_stream (Response.mailbox_data (MailboxDatum.search []) ∷ []))
      (queue_channel.bounded 10)

parse_ids_search_passes : (parse_ids_search.1.chan.messages ≡ []) × (parse_ids_search.0 ≡ ok [])
unfolding parse_ids async_imap.Parse.while_filtered async_imap.Parse.filter_sync
    async_imap.Base.foldl
parse_ids_search_passes = (refl, refl)

abbrev parse_mailbox_does_not_exist_error : Outcome Mailbox × Feed Queue
parse_mailbox_does_not_exist_error =
    parse_mailbox queue_channel (codes "A0003")
      (input_stream (
        Response.done (codes "A0003") Status.no none
          (some (codes "Mailbox doesn't exist: DeltaChat (0.001 + 0.140 + 0.139 secs)."))
        ∷ []))
      (queue_channel.bounded 10)

parse_mailbox_does_not_exist_error_passes :
    (parse_mailbox_does_not_exist_error.1.chan.messages ≡ [])
    × (parse_mailbox_does_not_exist_error.0
        ≡ err (
            Error.no none
              (some (codes "Mailbox doesn't exist: DeltaChat (0.001 + 0.140 + 0.139 secs)."))))
unfolding parse_mailbox async_imap.Base.Text.equal async_imap.Parse.Mailbox.check_status
parse_mailbox_does_not_exist_error_passes = (refl, refl)
