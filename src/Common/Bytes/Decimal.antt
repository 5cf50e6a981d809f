-- ===== src/Common/Bytes/Decimal.antt =====
-- The decimal digits that `{}` prints for a number, and a reader of them.
use benchmark_reverse_proxie.Common.Tests.{leb, ltb, ltb→lt, if◌then◌else◌, Bool-cases}
use benchmark_reverse_proxie.Common.Lists.{All, All-append}
use Prim.Native.Nat.{ℕ, zero, suc, ◌+◌, ◌-◌, ◌*◌, ◌/◌, ◌%◌, ◌≤◌, ◌<◌}
use mathlib.Core.Path.{◌≡◌, refl, ap, ◌∙◌}
use mathlib.Core.Logic.{◌≢◌, inl, inr}
use mathlib.Core.Bool.{◌&&◌}
use mathlib.Core.Option.{Option, none, some}
use mathlib.Core.List.{List, [], ◌∷◌, ◌++◌}
use native.Mathlib.Omega.{arith}

-- A number has at most as many digits as its successor counts, so this fuel is enough.
digits : ℕ → ℕ → List ℕ
digits zero n = []
digits (suc fuel) n =
    let front = digits fuel (n / 10) in
    if ltb n 10 then (48 + n) ∷ [] else front ++ (48 + n % 10) ∷ []

unfoldable pub decimal : ℕ → List ℕ
unfolding digits
decimal n = digits (suc n) n

read_digits : ℕ → List ℕ → Option ℕ
read_digits acc [] = some acc
read_digits acc (c ∷ cs) =
    let rest = read_digits (acc * 10 + (c - 48)) cs in if leb 48 c && leb c 57 then rest else none

unfoldable pub read_decimal : List ℕ → Option ℕ
unfolding read_digits
read_decimal [] = none
read_decimal (c ∷ cs) = read_digits 0 (c ∷ cs)

read_digits-append :
    (acc m d : ℕ) (xs : List ℕ)
    → d < 10
    → read_digits acc xs ≡ some m
    → read_digits acc (xs ++ (48 + d) ∷ []) ≡ some (m * 10 + d)
unfolding read_digits
read_digits-append acc m d [] h e = ground arith
read_digits-append acc m d (c ∷ cs) h e =
    ground (arith, read_digits-append (acc * 10 + (c - 48)) m d cs h)

one_digit : (n : ℕ) → n < 10 → read_digits 0 ((48 + n) ∷ []) ≡ some n
unfolding read_digits
one_digit n h = ground arith

read_digits-digits : (fuel n : ℕ) → n < fuel → read_digits 0 (digits fuel n) ≡ some n
unfolding digits
read_digits-digits zero n h = absurd (omega arith)
read_digits-digits (suc fuel) n h = elim (Bool-cases (ltb n 10)) [
  | inl small ↦ rw small (one_digit n (ltb→lt n 10 small))
  | inr large ↦ rw large (
      read_digits-append 0 (n / 10) (n % 10) (digits fuel (n / 10)) (omega arith)
        (read_digits-digits fuel (n / 10) (ground arith))
      ∙ ap some (omega arith))
]

-- The text of a number starts with a digit and holds digits only.
abbrev IsDigits : List ℕ → Type 0
IsDigits = All (λ c. 48 ≤ c)

digits-IsDigits : (fuel n : ℕ) → IsDigits (digits fuel n)
unfolding digits
digits-IsDigits zero n = tt
digits-IsDigits (suc fuel) n = elim (Bool-cases (ltb n 10)) [
  | inl small ↦ rw small (omega arith)
  | inr large ↦ rw large (
      All-append (λ c. 48 ≤ c) (digits fuel (n / 10)) _ (digits-IsDigits fuel (n / 10))
        (omega arith))
]

pub decimal-IsDigits : (n : ℕ) → All (λ c. 48 ≤ c) (decimal n)
unfolding decimal
decimal-IsDigits n = digits-IsDigits (suc n) n

append_ne_nil : (xs : List ℕ) (c : ℕ) → xs ++ c ∷ [] ≢ []
append_ne_nil [] c e = cc
append_ne_nil (x ∷ xs) c e = cc

digits_ne_nil : (fuel n : ℕ) → digits (suc fuel) n ≢ []
unfolding digits
digits_ne_nil fuel n = elim (Bool-cases (ltb n 10)) [
  | inl small ↦ rw small (λ e. cc)
  | inr large ↦ rw large (append_ne_nil (digits fuel (n / 10)) (48 + n % 10))
]

read_decimal-digits :
    (xs : List ℕ) (n : ℕ) → xs ≢ [] → read_digits 0 xs ≡ some n → read_decimal xs ≡ some n
unfolding read_decimal
read_decimal-digits [] n h e = absurd (h refl)
read_decimal-digits (x ∷ xs) n h e = e

-- What is printed is read back.
pub read_decimal-decimal : (n : ℕ) → read_decimal (decimal n) ≡ some n
unfolding decimal
read_decimal-decimal n =
    read_decimal-digits (decimal n) n (λ e. digits_ne_nil n n e)
      (read_digits-digits (suc n) n (omega arith))

decimal_fourteen : decimal 14 ≡ 49 ∷ 52 ∷ []
unfolding decimal
decimal_fourteen = refl
