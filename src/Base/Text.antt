-- ===== src/Base/Text.antt =====
-- Text as the list of its UTF-8 bytes, which is what the program sends and what the server sends.
-- The program only ever looks for ASCII characters in a text, and a byte below 128 is never a part
-- of a longer character, so a search by characters is a search by bytes.
use Prim.Native.Char.{code}
use Prim.Native.String.{String}
use async_imap.Base.Tests.{leb, ◌==◌, if◌then◌else◌}
use Prim.Native.Nat.{ℕ, ◌+◌}
use mathlib.Core.Path.{◌≡◌}
use mathlib.Core.Logic.{◌↔◌}
use mathlib.Core.Bool.{Bool, true, false, ◌&&◌, ◌||◌}
use mathlib.Core.List.{List, [], ◌∷◌}
use native.Mathlib.Omega.{arith}

abbrev pub Bytes : Type 0
Bytes = List ℕ

-- A literal of the source, all of which are ASCII.
abbrev pub codes : String → Bytes
codes String.[] = []
codes (String.◌∷◌ c s) = code c ∷ codes s

-- `==` of two texts.
unfoldable pub equal : Bytes → Bytes → Bool
equal (c ∷ cs) (d ∷ ds) = equal cs ds && c == d
equal (c ∷ cs) [] = false
equal [] (d ∷ ds) = false
equal [] [] = true

pub equal_refl : (text : Bytes) → equal text text ≡ true
unfolding equal
equal_refl (c ∷ cs) = ground (arith, equal_refl cs)
equal_refl [] = ground arith

-- The test is right in both directions.
pub equal_iff : (text other : Bytes) → (equal text other ≡ true) ↔ (text ≡ other)
unfolding equal
equal_iff [] [] = ground arith
equal_iff [] (d ∷ ds) = ground arith
equal_iff (c ∷ cs) [] = ground arith
equal_iff (c ∷ cs) (d ∷ ds) = ground (arith, equal_iff cs ds)

-- `str::find(c).is_some()`, for an ASCII character.
unfoldable pub contains : ℕ → Bytes → Bool
contains c [] = false
contains c (x ∷ xs) = x == c || contains c xs

-- `to_ascii_lowercase` of one byte.
abbrev pub ascii_lower : ℕ → ℕ
ascii_lower c = if leb b'A' c && leb c b'Z' then c + 32 else c

-- `eq_ignore_ascii_case`.
unfoldable pub eq_ignore_ascii_case : Bytes → Bytes → Bool
eq_ignore_ascii_case [] [] = true
eq_ignore_ascii_case (x ∷ xs) (y ∷ ys) =
    ascii_lower x == ascii_lower y && eq_ignore_ascii_case xs ys
eq_ignore_ascii_case _ _ = false
