-- ===== src/Client/Quote/LineEnds.antt =====
-- What `validate_str` of src/client.rs does with a line end.
use async_imap.Base.{◌≡◌, true, false, Bool, ◌||◌, if◌then◌else◌, arith}
use async_imap.Base.Text.{Bytes, contains}
use async_imap.Client.Quote.{quote, validate_str}
use async_imap.Client.Quote.RoundTrip.{validate_str_lem}
use async_imap.Error.{Error, ok, err, validate}

-- A text with a line feed or a carriage return.
abbrev pub has_line_end : Bytes → Bool
has_line_end text = contains b'\n' text || contains b'\r' text

-- The error that names what is wrong with it.
abbrev pub line_end_error : Bytes → Error
line_end_error text = if contains b'\n' text then validate b'\n' else validate b'\r'

pub validate_str-line_end :
    (text : Bytes) → has_line_end text ≡ true → validate_str text ≡ err (line_end_error text)
validate_str-line_end text h = ground (arith, validate_str_lem text)

pub validate_str-fine :
    (text : Bytes) → has_line_end text ≡ false → validate_str text ≡ ok (quote text)
validate_str-fine text h = ground (arith, validate_str_lem text)
