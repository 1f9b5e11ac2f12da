-- ===== src/Error.antt =====
-- src/error.rs, and the outcome of a function that may fail or panic. An error whose text is a
-- debug print of values keeps those values in place of the text.
pub mod Calm
use async_imap.Base.{ℕ, Option}
use async_imap.Base.Text.{Bytes}
use async_imap.Proto.{Status, ResponseCode}

pub data IoKind : Type 0 where
  other unexpected_eof connection_refused : IoKind
  -- a kind that the transport chose
  transport : ℕ → IoKind

pub data IoMessage : Type 0 where
  text : Bytes → IoMessage
  -- `format!("{:?} during parsing of {:?}", other, buf)`
  during_parsing : ℕ → Bytes → IoMessage
  -- `format!("status: {:?}, code: {:?}, information: {:?}", …)`
  status_line : Status → Option ResponseCode → Option Bytes → IoMessage

pub record IoError : Type 0 where
  pub kind : IoKind
  pub message : IoMessage

pub data ParseError : Type 0 where
  invalid : Bytes → ParseError
  unexpected : Bytes → ParseError
  -- the challenge, and the number that stands for the `DecodeError`
  authentication : Bytes → Option ℕ → ParseError
  data_not_utf8 : Bytes → ParseError
  expected_response_not_found : Bytes → ParseError

pub data Error : Type 0 where
  io : IoError → Error
  bad : Option ResponseCode → Option Bytes → Error
  no : Option ResponseCode → Option Bytes → Error
  connection_lost : Error
  parse : ParseError → Error
  -- `ValidateError`, the character found
  validate : ℕ → Error
  append : Error

-- `Result<T, Error>`, or a panic.
pub data Outcome {ℓ} (A : Type ℓ) : Type ℓ where
  ok : A → Outcome A
  err : Error → Outcome A
  panic : Outcome A

infixl 5 ◌>>=◌
abbrev pub ◌>>=◌ {ℓ κ} : {A : Type ℓ} {B : Type κ} → Outcome A → (A → Outcome B) → Outcome B
ok a >>= f = f a
err e >>= f = err e
panic >>= f = panic

-- `io::Result<T>`.
pub data IoResult {ℓ} (A : Type ℓ) : Type ℓ where
  ok : A → IoResult A
  err : IoError → IoResult A

-- `?` on an `io::Result`, by `From<IoError> for Error`.
abbrev pub from_io {ℓ} : {A : Type ℓ} → IoResult A → Outcome A
from_io (ok a) = ok a
from_io (err e) = err (io e)
