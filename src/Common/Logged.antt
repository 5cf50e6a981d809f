-- ===== src/Common/Logged.antt =====
-- Code that asks its surroundings for operations, which are logged, and that may return an error,
-- panic, or never come back.
use mathlib.Core.List.{List}
use mathlib.Core.Option.{Option, none, some}

pub data Result {ℓ} (A : Type ℓ) : Type ℓ where
  ok : A → Result A
  err : Result A
  panicked : Result A
  blocked : Result A  -- it waits for ever

-- What an action gives, and the log of the operations after it.
abbrev pub Logged : Type 0 → Type 0 → Type 0
Logged Op A = List Op → Result A × List Op

abbrev continue : {Op A B : Type 0} → Result A → (A → Logged Op B) → Logged Op B
continue (ok a) f log = f a log
continue err f log = (err, log)
continue panicked f log = (panicked, log)
continue blocked f log = (blocked, log)

infixl 10 ◌>>=◌ ◌>>◌
unfoldable pub ◌>>=◌ : {Op A B : Type 0} → Logged Op A → (A → Logged Op B) → Logged Op B
◌>>=◌ m f log = continue (m log).0 f (m log).1

abbrev pub ◌>>◌ : {Op A B : Type 0} → Logged Op A → Logged Op B → Logged Op B
m >> n = m >>= λ _. n

unfoldable pub pure : {Op A : Type 0} → A → Logged Op A
pure a log = (ok a, log)

abbrev pub no_error : {A : Type 0} → Result A → Result A
no_error (ok a) = ok a
no_error err = panicked
no_error panicked = panicked
no_error blocked = blocked

-- `unwrap` of a `Result`.
unfoldable pub unwrap : {Op A : Type 0} → Logged Op A → Logged Op A
unwrap m log = (no_error (m log).0, (m log).1)

-- `unwrap` of a value that may be missing.
unfoldable pub unwrap_some : {Op A : Type 0} → Option A → Logged Op A
unwrap_some none log = (panicked, log)
unwrap_some (some a) log = (ok a, log)
