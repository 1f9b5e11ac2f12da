-- ===== src/Client/Quote/Identification.antt =====
-- What a server reads from the list that `format_identification` of src/extensions/id.rs makes.
use async_imap.Base.{
  ℕ, Bool, true, ◌&&◌, zero, suc, Option, none, some, List, [], ◌∷◌, drop, ◌==◌, if◌then◌else◌,
}
use async_imap.Base.Text.{Bytes}
use async_imap.Client.Quote.RoundTrip.{all_text, unquote}

-- A character that must stand at the head of a text.
abbrev expect : ℕ → Bytes → Option Bytes
expect c [] = none
expect c (x ∷ xs) = if x == c then some xs else none

-- `NIL`, or a quoted string, told apart by the first character.
read_value : Bytes → Option (Option Bytes × Bytes)
read_value [] = none
read_value (c ∷ text) =
    if c == b'N'
    then some (none, drop 2 text)
    else elim (unquote (c ∷ text)) [ some (v, rest) ↦ some (some v, rest) | none ↦ none ]

-- A space and a value, behind a key.
value_after : Option (Bytes × Bytes) → Option ((Bytes × Option Bytes) × Bytes)
value_after none = none
value_after (some (k, rest)) = elim (expect b' ' rest) [
  | none ↦ none
  | some text ↦ elim (read_value text) [ none ↦ none | some (v, rest') ↦ some ((k, v), rest') ]
]

-- As many pairs as given, with a space between two.
pub read_pairs : ℕ → Bytes → Option (List (Bytes × Option Bytes))
read_pairs zero text = some []
read_pairs (suc zero) text = elim (value_after (unquote text)) [
  | none ↦ none
  | some (p, rest) ↦ some (p ∷ [])
]
read_pairs (suc (suc n)) text = elim (value_after (unquote text)) [
  | none ↦ none
  | some (p, rest) ↦ elim (expect b' ' rest) [
    | none ↦ none
    | some rest' ↦ elim (read_pairs (suc n) rest') [ none ↦ none | some ps ↦ some (p ∷ ps) ]
  ]
]

-- What a quoted string or `NIL` can hold, and a key with a value.
abbrev is_value : Option Bytes → Bool
is_value none = true
is_value (some v) = all_text v

abbrev pub is_pair : Bytes × Option Bytes → Bool
is_pair (k, v) = all_text k && is_value v

abbrev pub all_pairs : List (Bytes × Option Bytes) → Bool
all_pairs [] = true
all_pairs (p ∷ ps) = is_pair p && all_pairs ps
