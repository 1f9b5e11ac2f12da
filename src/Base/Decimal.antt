-- ===== src/Base/Decimal.antt =====
-- Decimal numbers as the standard library writes them.
use Prim.Native.Nat.{ℕ, zero, suc, ◌+◌, ◌-◌, ◌*◌, ◌/◌, ◌%◌, ◌<◌}
use mathlib.Core.Path.{◌≡◌, ap, ◌∙◌}
use mathlib.Core.Logic.{inl, inr}
use mathlib.Core.List.{[], ◌∷◌}
use native.Mathlib.Omega.{arith}
use async_imap.Base.Tests.{ltb, if◌then◌else◌, Bool-cases}
use async_imap.Base.Text.{Bytes}

-- The digits of `n` in front of `acc`, with fuel for one digit more than `n`.
digits_onto : ℕ → ℕ → Bytes → Bytes
digits_onto zero n acc = acc
digits_onto (suc fuel) n acc =
    let acc' = (b'0' + n % 10) ∷ acc in
    let rest = digits_onto fuel (n / 10) acc' in if ltb n 10 then acc' else rest

-- `format!("{}", n)`.
unfoldable pub decimal : ℕ → Bytes
unfolding digits_onto
decimal n = digits_onto (n + 1) n []

-- Reading digits from the left, on from the number `n`.
abbrev pub read_decimal : ℕ → Bytes → ℕ
read_decimal n [] = n
read_decimal n (c ∷ cs) = read_decimal (n * 10 + (c - b'0')) cs

read_decimal-digits_onto :
    (fuel n : ℕ) (acc : Bytes)
    → n < fuel
    → read_decimal 0 (digits_onto fuel n acc) ≡ read_decimal n acc
unfolding digits_onto
read_decimal-digits_onto zero n acc h = absurd (omega arith)
read_decimal-digits_onto (suc fuel) n acc h = elim (Bool-cases (ltb n 10)) [
  | inl last ↦
      let e : 0 * 10 + (b'0' + n % 10 - b'0') ≡ n = ground arith in
      rw last (ap (λ k. read_decimal k acc) e)
  | inr more ↦
      let e : n / 10 * 10 + (b'0' + n % 10 - b'0') ≡ n = omega arith in
      rw more (
        read_decimal-digits_onto fuel (n / 10) ((b'0' + n % 10) ∷ acc) (ground arith)
        ∙ ap (λ k. read_decimal k acc) e)
]

-- The number is read back, so that the fuel was enough.
pub read_decimal-decimal : (n : ℕ) → read_decimal 0 (decimal n) ≡ n
unfolding decimal
read_decimal-decimal n = read_decimal-digits_onto (n + 1) n [] (omega arith)
