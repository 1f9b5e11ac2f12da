-- ===== src/Types/IdGenerator/Drawn.antt =====
-- The tags that a stretch of work draws from the generator of src/types/id_generator.rs and uses.
use async_imap.Base.{ℕ, zero, suc, ◌+◌, ◌^◌, ◌≤◌, ◌<◌, ◌≡◌, ◌≢◌, List, [], ◌∷◌, ◌++◌, arith}
use async_imap.Proto.{RequestId}
use async_imap.Types.IdGenerator.{IdGenerator, next_id, id_after, id_after_ne}

-- From one generator to the other by so many draws, of which those in the list were used, in order.
pub data Drawn : ℕ → IdGenerator → List RequestId → IdGenerator → Type 0 where
  done : (g : IdGenerator) → Drawn zero g [] g
  unused :
      (g : IdGenerator) {n : ℕ} {ts : List RequestId} {g' : IdGenerator}
      → Drawn n (next_id g).1 ts g'
      → Drawn (suc n) g ts g'
  used :
      (g : IdGenerator) {n : ℕ} {ts : List RequestId} {g' : IdGenerator}
      → Drawn n (next_id g).1 ts g'
      → Drawn (suc n) g ((next_id g).0 ∷ ts) g'

pub Drawn-append :
    {n m : ℕ} {g g' g'' : IdGenerator} {ts us : List RequestId}
    → Drawn n g ts g'
    → Drawn m g' us g''
    → (k : ℕ) × (k ≡ n + m) × Drawn k g (ts ++ us) g''
Drawn-append {m = m} (done g) e = (m, omega arith, e)
Drawn-append (unused g d) e =
    let (k, h, f) = Drawn-append d e in (suc k, omega (arith, h), unused g f)
Drawn-append (used g d) e = let (k, h, f) = Drawn-append d e in (suc k, omega (arith, h), used g f)

abbrev pub NotIn : RequestId → List RequestId → Type 0
NotIn t [] = Unit
NotIn t (u ∷ us) = (t ≢ u) × NotIn t us

-- No tag stands in the list twice.
abbrev pub AllDistinct : List RequestId → Type 0
AllDistinct [] = Unit
AllDistinct (t ∷ ts) = NotIn t ts × AllDistinct ts

Drawn-NotIn :
    (t : RequestId) {n : ℕ} {g g' : IdGenerator} {ts : List RequestId}
    → Drawn n g ts g'
    → ((j : ℕ) → j < n → t ≢ id_after j g)
    → NotIn t ts
unfolding id_after
Drawn-NotIn t (done g) h = tt
Drawn-NotIn t (unused g d) h = Drawn-NotIn t d (λ j l. h (suc j) (omega arith))
Drawn-NotIn t (used g d) h =
    (h zero (omega arith), Drawn-NotIn t d (λ j l. h (suc j) (omega arith)))

-- At most 10000 draws before the counter wraps give tags of which no two are the same.
pub Drawn-AllDistinct :
    {n : ℕ} {g g' : IdGenerator} {ts : List RequestId}
    → Drawn n g ts g'
    → n ≤ 10000
    → g.next + n < 2 ^ 64
    → AllDistinct ts
Drawn-AllDistinct (done g) h w = tt
Drawn-AllDistinct (unused g d) h w =
    Drawn-AllDistinct d (omega arith) (unfold next_id in omega arith)
Drawn-AllDistinct (used g d) h w = (
  Drawn-NotIn (next_id g).0 d (λ j l.
      unfold id_after in id_after_ne g zero (suc j) (omega arith) (omega arith) (omega arith)),
  Drawn-AllDistinct d (omega arith) (unfold next_id in omega arith),
)
