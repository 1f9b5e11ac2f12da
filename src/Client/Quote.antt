-- ===== src/Client/Quote.antt =====
-- The macro `quote!` and `validate_str` of src/client.rs, `escape` and `format_identification` of
-- src/extensions/id.rs.
pub mod Identification
pub mod LineEnds
pub mod RoundTrip
use async_imap.Base.{ℕ, Option, none, some, List, [], ◌∷◌, ◌++◌, ◌==◌, if◌then◌else◌, map}
use async_imap.Base.Text.{Bytes, codes, contains}
use async_imap.Error.{Outcome, ok, err, validate}

-- `str::replace` of one ASCII character by a text.
unfoldable pub replace : ℕ → Bytes → Bytes → Bytes
replace c to [] = []
replace c to (x ∷ xs) = (if x == c then to else x ∷ []) ++ replace c to xs

-- `escape` of src/extensions/id.rs, and the two replacements of `quote!`.
unfoldable pub escape : Bytes → Bytes
unfolding replace
escape s = replace b'"' (b'\\' ∷ b'"' ∷ []) (replace b'\\' (b'\\' ∷ b'\\' ∷ []) s)

unfoldable pub quote : Bytes → Bytes
unfolding escape
quote x = b'"' ∷ (escape x ++ b'"' ∷ [])

unfoldable pub validate_str : Bytes → Outcome Bytes
validate_str value =
    let quoted = quote value in
    if contains b'\n' quoted
    then err (validate b'\n')
    else if contains b'\r' quoted
    then err (validate b'\r')
    else ok quoted

-- `join(" ")` of the standard library.
unfoldable pub join : List Bytes → Bytes
join [] = []
join (x ∷ []) = x
join (x ∷ y ∷ ys) = x ++ (b' ' ∷ join (y ∷ ys))

-- The value of one pair.
identification_value : Option Bytes → Bytes
identification_value none = codes "NIL"
identification_value (some v) = b'"' ∷ (escape v ++ b'"' ∷ [])

identification_pair : Bytes × Option Bytes → Bytes
unfolding identification_value
identification_pair (k, v) = (b'"' ∷ escape k) ++ (b'"' ∷ b' ' ∷ identification_value v)

unfoldable pub format_identification : List (Bytes × Option Bytes) → Bytes
unfolding identification_pair join
format_identification id = join (map identification_pair id)
