-- ===== src/Types/Wire.antt =====
-- src/types/response_data.rs, src/types/request.rs, src/types/name.rs and `UnsolicitedResponse` of
-- src/types/mod.rs.
use async_imap.Base.{ℕ, Option, none, some, List}
use async_imap.Base.Text.{Bytes}
use async_imap.Proto.{RequestId, Response, MailboxDatum, StatusAttribute, NameAttribute}

-- The block of bytes that was parsed, and the response that was found at its head.
pub record ResponseData : Type 0 where
  pub owner : Bytes
  pub parsed : Response

unfoldable pub request_id_of : Response → Option RequestId
request_id_of (Response.done tag _ _ _) = some tag
request_id_of _ = none

unfoldable pub request_id : ResponseData → Option RequestId
unfolding request_id_of
request_id res = request_id_of res.parsed

pub record Request : Type 0 where
  pub tag : Option RequestId
  pub body : Bytes

pub data UnsolicitedResponse : Type 0 where
  status : Bytes → List StatusAttribute → UnsolicitedResponse
  recent : ℕ → UnsolicitedResponse
  exists : ℕ → UnsolicitedResponse
  expunge : ℕ → UnsolicitedResponse
  other : ResponseData → UnsolicitedResponse

-- `Name` with its `InnerName`.
pub record Name : Type 0 where
  pub owner : ResponseData
  pub attributes : List NameAttribute
  pub delimiter : Option Bytes
  pub name : Bytes

-- `none` is the panic of the closure.
name_of : ResponseData → Response → Option Name
name_of resp (Response.mailbox_data (MailboxDatum.list name_attributes delimiter name)) =
    some (record { owner = resp; attributes = name_attributes; delimiter = delimiter; name = name })
name_of resp _ = none

unfoldable pub from_mailbox_data : ResponseData → Option Name
unfolding name_of
from_mailbox_data resp = name_of resp resp.parsed
