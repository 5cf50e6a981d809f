-- ===== src/Common/Exec.antt =====
-- Computations over a state that may panic. What was written before a panic stays written.
use mathlib.Core.Option.{Option, none, some}

pub data Outcome {ℓ} (A : Type ℓ) : Type ℓ where
  done : A → Outcome A
  panicked : Outcome A

abbrev pub Exec {ℓ} : Type ℓ → Type ℓ → Type ℓ
Exec S A = S → Outcome A × S

module _ {ℓ} {S A B : Type ℓ} where
  abbrev continue : Outcome A → (A → Exec S B) → Exec S B
  continue (done a) f s = f a s
  continue panicked f s = (panicked, s)

  infixl 10 ◌>>=◌ ◌>>◌
  abbrev pub ◌>>=◌ : Exec S A → (A → Exec S B) → Exec S B
  ◌>>=◌ m f s = continue (m s).0 f (m s).1

  abbrev pub ◌>>◌ : Exec S A → Exec S B → Exec S B
  m >> n = m >>= λ _. n

module _ {ℓ} {S A : Type ℓ} where
  abbrev pub pure : A → Exec S A
  pure a s = (done a, s)

  -- `unwrap` of an `Option` or of a `Result`.
  abbrev pub unwrap : Option A → Exec S A
  unwrap none s = (panicked, s)
  unwrap (some a) s = (done a, s)
