-- ===== src/Client/Quote/RoundTrip.antt =====
-- What a server reads from the quoted texts of src/client.rs and src/extensions/id.rs.
use async_imap.Base.{
  ℕ, Bool, true, false, ◌≡◌, ◌≢◌, append-nil, refl, ◌∙◌, ◌||◌, ◌&&◌, not, Option, none, some, [],
  ◌∷◌, ◌++◌, append_assoc, ◌==◌, if◌then◌else◌, arith,
}
use async_imap.Base.Text.{Bytes, contains}
use async_imap.Error.{ok, err, validate}
use async_imap.Client.Quote.{escape, quote, validate_str}

-- A character that a quoted string may hold: not NUL, and no line end. RFC 3501 leaves out the bytes
-- from 128 on too, which RFC 9051 takes in as UTF-8.
abbrev pub is_text : ℕ → Bool
is_text c = not (c == 0 || (c == b'\n' || c == b'\r'))

abbrev pub all_text : Bytes → Bool
all_text [] = true
all_text (c ∷ cs) = is_text c && all_text cs

-- A quoted string, read behind its opening quote: a backslash stands before a backslash or a quote, a
-- quote ends the string, and any other character must be one of a text. The result is the string and
-- what follows it.
pub read_quoted : Bool → Bytes → Bytes → Option (Bytes × Bytes)
read_quoted after_backslash got [] = none
read_quoted true got (c ∷ cs) =
    let taken = read_quoted false (got ++ c ∷ []) cs in
    if c == b'\\' || c == b'"' then taken else none
read_quoted false got (c ∷ cs) =
    let escaped = read_quoted true got cs in
    let plain = read_quoted false (got ++ c ∷ []) cs in
    if c == b'\\'
    then escaped
    else if c == b'"'
    then some (got, cs)
    else if is_text c
    then plain
    else none

-- A quoted string with its opening quote.
pub unquote : Bytes → Option (Bytes × Bytes)
unquote [] = none
unquote (c ∷ cs) = if c == b'"' then read_quoted false [] cs else none

escaped_byte : ℕ → Bytes
escaped_byte c =
    if c == b'\\' then b'\\' ∷ b'\\' ∷ [] else if c == b'"' then b'\\' ∷ b'"' ∷ [] else c ∷ []

-- The two passes of `escape` act on each byte by itself.
escape-cons : (c : ℕ) (s : Bytes) → escape (c ∷ s) ≡ escaped_byte c ++ escape s
unfolding escape escaped_byte
escape-cons c s = ground arith

read_quoted-escaped_byte :
    (c : ℕ) (got rest : Bytes)
    → read_quoted false got (escaped_byte c ++ rest)
      ≡ (if is_text c then read_quoted false (got ++ c ∷ []) rest else none)
unfolding read_quoted escaped_byte
read_quoted-escaped_byte c got rest = ground arith

read_quoted-escape :
    (s got rest : Bytes)
    → read_quoted false got (escape s ++ b'"' ∷ rest)
      ≡ (if all_text s then some (got ++ s, rest) else none)
read_quoted-escape [] got rest = unfold escape read_quoted in rw append-nil
read_quoted-escape (c ∷ s) got rest =
    rw (escape-cons c s, append_assoc (escaped_byte c) (escape s) (b'"' ∷ rest))
      (read_quoted-escaped_byte c got _
        ∙ ground (arith, read_quoted-escape s (got ++ c ∷ []) rest, append_assoc got (c ∷ []) s))

-- Whatever quotes and backslashes a text holds, a server reads back exactly that text from its quoted
-- form, and goes on with what stands behind it, if the text has no NUL and no line end; a quoted form
-- with one of these is no quoted string, and the server refuses it.
pub unquote-quote :
    (s rest : Bytes) → unquote (quote s ++ rest) ≡ (if all_text s then some (s, rest) else none)
unfolding unquote quote
unquote-quote s rest = rw append_assoc (read_quoted-escape s [] rest)

contains-append : (c : ℕ) (xs ys : Bytes) → contains c (xs ++ ys) ≡ (contains c xs || contains c ys)
unfolding contains
contains-append c [] ys = refl
contains-append c (x ∷ xs) ys = ground (arith, contains-append c xs ys)

-- A character that quoting neither adds nor takes away.
contains-escape : (c : ℕ) (s : Bytes) → c ≢ b'\\' → c ≢ b'"' → contains c (escape s) ≡ contains c s
contains-escape c [] b q = unfold escape contains in refl
contains-escape c (x ∷ s) b q =
    rw (escape-cons x s, contains-append c (escaped_byte x) (escape s), contains-escape c s b q)
      (unfold contains escaped_byte in ground arith)

pub contains-quote :
    (c : ℕ) (s : Bytes) → c ≢ b'\\' → c ≢ b'"' → contains c (quote s) ≡ contains c s
contains-quote c s b q =
    let inside : contains c (escape s ++ b'"' ∷ []) ≡ (contains c s || contains c (b'"' ∷ [])) =
      rw (contains-append c (escape s) (b'"' ∷ []), contains-escape c s b q) in
    unfold quote contains in ground (arith, inside)

-- `validate_str` refuses exactly the texts with a line feed or a carriage return, naming the line feed
-- where both are there; any other text is quoted.
pub validate_str_lem :
    (value : Bytes)
    → validate_str value ≡ (
        if contains b'\n' value
        then err (validate b'\n')
        else if contains b'\r' value
        then err (validate b'\r')
        else ok (quote value))
unfolding validate_str
validate_str_lem value = ground (
  arith,
  contains-quote b'\n' value (omega arith) (omega arith),
  contains-quote b'\r' value (omega arith) (omega arith),
)
