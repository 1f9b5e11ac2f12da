-- ===== src/Tests/Repository/Unilateral.antt =====
-- The tests of src/parse.rs on unilateral responses inside a reply.
use async_imap.Base.{ℕ, ◌≡◌, refl, some, none, List, [], ◌∷◌}
use async_imap.Base.Text.{codes}
use async_imap.Error.{Outcome, ok}
use async_imap.Parse.{Feed}
use async_imap.Parse.Readers.{parse_names, parse_fetches, parse_capabilities, parse_ids}
use async_imap.Proto.{MailboxDatum, AttributeValue, CapabilityRef, Response, StatusAttribute}
use async_imap.Tests.Support.{Queue, queue_channel, response}
use async_imap.Types.Capabilities
use async_imap.Types.Capabilities.{Capabilities}
use async_imap.Types.Fetch
use async_imap.Types.Fetch.{Fetch}
use async_imap.Types.Wire.{Name, UnsolicitedResponse}
use async_imap.Tests.Repository.{input_stream, four_capabilities}

abbrev parse_fetches_w_unilateral : List (Outcome Fetch) × Feed Queue
parse_fetches_w_unilateral =
    parse_fetches queue_channel (codes "a") 10
      (input_stream (
        Response.fetch 37 (AttributeValue.uid 74 ∷ [])
        ∷ Response.mailbox_data (MailboxDatum.recent 1)
        ∷ []))
      (queue_channel.bounded 10)

parse_fetches_w_unilateral_passes :
    (parse_fetches_w_unilateral.1.chan.messages ≡ UnsolicitedResponse.recent 1 ∷ [])
    × (parse_fetches_w_unilateral.0
        ≡ ok (record {
          response = response (Response.fetch 37 (AttributeValue.uid 74 ∷ []));
          message = 37;
          uid = some 74;
          size = none;
          modseq = none;
        })
          ∷ [])
unfolding parse_fetches async_imap.Parse.take_filtered async_imap.Parse.filter_sync
    async_imap.Parse.handle_unilateral async_imap.Parse.message_of Fetch.new
parse_fetches_w_unilateral_passes = (refl, refl)

abbrev parse_names_w_unilateral : List (Outcome Name) × Feed Queue
parse_names_w_unilateral =
    parse_names queue_channel (codes "A0001") 10
      (input_stream (
        Response.mailbox_data
          (MailboxDatum.list (codes "\\HasNoChildren" ∷ []) (some (codes ".")) (codes "INBOX"))
        ∷ Response.expunge 4
        ∷ []))
      (queue_channel.bounded 10)

parse_names_w_unilateral_passes :
    (parse_names_w_unilateral.1.chan.messages ≡ UnsolicitedResponse.expunge 4 ∷ [])
    × (parse_names_w_unilateral.0
        ≡ ok (record {
          owner = response (
              Response.mailbox_data (
                MailboxDatum.list
                  (codes "\\HasNoChildren" ∷ [])
                  (some (codes "."))
                  (codes "INBOX")));
          attributes = codes "\\HasNoChildren" ∷ [];
          delimiter = some (codes ".");
          name = codes "INBOX";
        })
          ∷ [])
unfolding parse_names async_imap.Parse.take_filtered async_imap.Parse.filter_sync
    async_imap.Parse.handle_unilateral async_imap.Parse.message_of
    async_imap.Types.Wire.from_mailbox_data
parse_names_w_unilateral_passes = (refl, refl)

abbrev parse_capabilities_w_unilateral : Outcome Capabilities × Feed Queue
parse_capabilities_w_unilateral =
    parse_capabilities queue_channel (codes "A0001")
      (input_stream (
        Response.capabilities (
          CapabilityRef.imap4rev1
          ∷ CapabilityRef.atom (codes "STARTTLS")
          ∷ CapabilityRef.auth (codes "GSSAPI")
          ∷ CapabilityRef.atom (codes "LOGINDISABLED")
          ∷ [])
        ∷ Response.mailbox_data (
            MailboxDatum.status (codes "dev.github") (
              StatusAttribute.messages 10
              ∷ StatusAttribute.uid_next 11
              ∷ StatusAttribute.uid_validity 1408806928
              ∷ StatusAttribute.unseen 0
              ∷ []))
        ∷ Response.mailbox_data (MailboxDatum.exists 4)
        ∷ []))
      (queue_channel.bounded 10)

parse_capabilities_w_unilateral_passes :
    (parse_capabilities_w_unilateral.0 ≡ ok four_capabilities)
    × (parse_capabilities_w_unilateral.1.chan.messages
        ≡ UnsolicitedResponse.status (codes "dev.github") (
            StatusAttribute.messages 10
            ∷ StatusAttribute.uid_next 11
            ∷ StatusAttribute.uid_validity 1408806928
            ∷ StatusAttribute.unseen 0
            ∷ [])
          ∷ UnsolicitedResponse.exists 4
          ∷ [])
unfolding parse_capabilities async_imap.Parse.while_filtered async_imap.Parse.filter_sync
    async_imap.Parse.handle_unilateral async_imap.Base.foldl Capabilities.insert Capabilities.member
    Capabilities.same Capabilities.from async_imap.Base.Text.equal async_imap.Parse.message_of
parse_capabilities_w_unilateral_passes = (refl, refl)

abbrev parse_ids_w_unilateral : Outcome (List ℕ) × Feed Queue
parse_ids_w_unilateral =
    parse_ids queue_channel (codes "A0001")
      (input_stream (
        Response.mailbox_data (MailboxDatum.search (23 ∷ 42 ∷ 4711 ∷ []))
        ∷ Response.mailbox_data (MailboxDatum.recent 1)
        ∷ Response.mailbox_data (
            MailboxDatum.status (codes "INBOX") (
              StatusAttribute.messages 10
              ∷ StatusAttribute.uid_next 11
              ∷ StatusAttribute.uid_validity 1408806928
              ∷ StatusAttribute.unseen 0
              ∷ []))
        ∷ []))
      (queue_channel.bounded 10)

parse_ids_w_unilateral_passes :
    (parse_ids_w_unilateral.0 ≡ ok (4711 ∷ 42 ∷ 23 ∷ []))
    × (parse_ids_w_unilateral.1.chan.messages
        ≡ UnsolicitedResponse.recent 1
          ∷ UnsolicitedResponse.status (codes "INBOX") (
              StatusAttribute.messages 10
              ∷ StatusAttribute.uid_next 11
              ∷ StatusAttribute.uid_validity 1408806928
              ∷ StatusAttribute.unseen 0
              ∷ [])
          ∷ [])
unfolding parse_ids async_imap.Parse.while_filtered async_imap.Parse.filter_sync
    async_imap.Parse.handle_unilateral async_imap.Base.foldl async_imap.Parse.Readers.insert
    async_imap.Parse.message_of
parse_ids_w_unilateral_passes = (refl, refl)
