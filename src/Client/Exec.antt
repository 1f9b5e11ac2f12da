-- ===== src/Client/Exec.antt =====
-- Methods that change a connection or a session and may fail or panic. What was done before an error
-- stays done, so that the state comes back beside the error too.
use async_imap.Error.{Outcome, ok, err, panic}

abbrev pub Exec : Type 0 → Type 0 → Type 0
Exec S A = S → Outcome A × S

module _ {S A B : Type 0} where
  abbrev pub continue : (A → Exec S B) → Outcome A → S → Outcome B × S
  continue f (ok a) s = f a s
  continue f (err e) s = (err e, s)
  continue f panic s = (panic, s)

  infixl 5 ◌>>=◌ ◌>>◌
  abbrev pub ◌>>=◌ : Exec S A → (A → Exec S B) → Exec S B
  ◌>>=◌ m f s = continue f (m s).0 (m s).1

  abbrev pub ◌>>◌ : Exec S A → Exec S B → Exec S B
  m >> k = m >>= λ _. k

module _ {S A : Type 0} where
  abbrev pub lift : Outcome A → Exec S A
  lift o s = (o, s)
