-- ===== src/Types/IdGenerator.antt =====
-- src/types/id_generator.rs.
pub mod Drawn
use async_imap.Base.{
  ℕ, zero, suc, ◌+◌, ◌-◌, ◌*◌, ◌/◌, ◌%◌, ◌^◌, ◌<◌, [], ◌∷◌, ◌≡◌, ◌≢◌, sym, ap, ◌∙◌, arith,
}
use async_imap.Base.Text.{Bytes}
use async_imap.Proto.{RequestId}

pub record IdGenerator : Type 0 where
  -- the last identifier returned
  pub next : ℕ

abbrev pub new : IdGenerator
new = record { next = 0 }

-- One decimal digit.
abbrev digit : ℕ → ℕ
digit d = b'0' + d

-- `format!("{:04}", n)`, for `n` below 10000.
unfoldable pub pad4 : ℕ → Bytes
pad4 n = digit (n / 1000) ∷ digit (n / 100 % 10) ∷ digit (n / 10 % 10) ∷ digit (n % 10) ∷ []

-- The identifier of a counter value.
unfoldable pub tag_of : ℕ → RequestId
unfolding pad4
tag_of n = b'A' ∷ pad4 (n % 10000)

-- The `u64` counter wraps.
unfoldable pub next_id : IdGenerator → RequestId × IdGenerator
next_id g = let n = (g.next + 1) % 2 ^ 64 in (tag_of n, record { next = n })

-- The counter value, modulo 10000, that an identifier shows.
abbrev shown : RequestId → ℕ
shown (a ∷ w ∷ x ∷ y ∷ z ∷ []) = (w - b'0') * 1000 + (x - b'0') * 100 + (y - b'0') * 10 + (z - b'0')
shown _ = 0

shown-tag_of : (n : ℕ) → shown (tag_of n) ≡ n % 10000
unfolding tag_of
shown-tag_of n = omega arith

-- The id that the `k`th call from now returns, counted from 0.
unfoldable pub id_after : ℕ → IdGenerator → RequestId
unfolding next_id
id_after zero g = (next_id g).0
id_after (suc k) g = id_after k (next_id g).1

id_after-tag_of :
    (k : ℕ) (g : IdGenerator) → g.next + k + 1 < 2 ^ 64 → id_after k g ≡ tag_of (g.next + k + 1)
unfolding id_after
id_after-tag_of zero g h = ap tag_of (omega arith)
id_after-tag_of (suc k) g h =
    id_after-tag_of k (next_id g).1 (unfold next_id in omega arith)
    ∙ ap tag_of (unfold next_id in omega arith)

-- Of any two calls less than 10000 apart, made before the 64-bit counter wraps, the identifiers
-- differ.
pub id_after_ne :
    (g : IdGenerator) (i j : ℕ)
    → i < j
    → j < i + 10000
    → g.next + j + 1 < 2 ^ 64
    → id_after i g ≢ id_after j g
id_after_ne g i j h k w e = absurd (omega (arith, apart))
  where
    apart : (g.next + i + 1) % 10000 ≡ (g.next + j + 1) % 10000
    apart =
        sym (shown-tag_of (g.next + i + 1))
        ∙ ap shown (sym (id_after-tag_of i g (omega arith)) ∙ e ∙ id_after-tag_of j g w)
        ∙ shown-tag_of (g.next + j + 1)
