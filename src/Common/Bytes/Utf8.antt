-- ===== src/Common/Bytes/Utf8.antt =====
-- The test of `core::str::from_utf8`: well-formed UTF-8, by the ranges of the Unicode standard.
use benchmark_reverse_proxie.Common.Tests.{leb, ltb, ◌==◌, if◌then◌else◌}
use Prim.Native.Nat.{ℕ, ◌-◌}
use mathlib.Core.Path.{◌≡◌, refl, ◌∙◌}
use mathlib.Core.Bool.{Bool, true, false, ◌&&◌}
use mathlib.Core.List.{List, [], ◌∷◌, ◌++◌}
use native.Mathlib.Omega.{arith}

between : ℕ → ℕ → ℕ → Bool
between lo hi b = leb lo b && leb b hi

-- What may follow: so many plain continuation bytes, or a second byte with a range of its own.
pub data Expect : Type 0 where
  start : Expect
  rest : ℕ → Expect
  second : ℕ → ℕ → ℕ → Expect
  invalid : Expect

after : ℕ → Expect
after n = if n == 0 then start else rest n

lead : ℕ → Expect
unfolding between
lead b =
    if ltb b 0x80
    then start
    else if between 0xc2 0xdf b
    then second 0x80 0xbf 0
    else if b == 0xe0
    then second 0xa0 0xbf 1
    else if b == 0xed
    then second 0x80 0x9f 1
    else if between 0xe1 0xef b
    then second 0x80 0xbf 1
    else if b == 0xf0
    then second 0x90 0xbf 2
    else if between 0xf1 0xf3 b
    then second 0x80 0xbf 2
    else if b == 0xf4
    then second 0x80 0x8f 2
    else invalid

next : Expect → ℕ → Expect
unfolding lead between after
next start b = lead b
next (rest n) b = if between 0x80 0xbf b then after (n - 1) else invalid
next (second lo hi n) b = if between lo hi b then after n else invalid
next invalid b = invalid

finished : Expect → Bool
finished start = true
finished _ = false

scan : Expect → List ℕ → Bool
unfolding next finished
scan e [] = finished e
scan e (b ∷ bs) = scan (next e b) bs

unfoldable pub is_utf8 : List ℕ → Bool
unfolding scan
is_utf8 = scan start

scan-append : (e : Expect) (xs ys : List ℕ) → scan e xs ≡ true → scan e (xs ++ ys) ≡ scan start ys
unfolding scan
scan-append start [] ys h = refl
scan-append e [] ys h = ground arith
scan-append e (x ∷ xs) ys h = scan-append (next e x) xs ys h

-- A concatenation of texts is a text.
pub is_utf8-append :
    (xs ys : List ℕ) → is_utf8 xs ≡ true → is_utf8 ys ≡ true → is_utf8 (xs ++ ys) ≡ true
unfolding is_utf8
is_utf8-append xs ys hx hy = scan-append start xs ys hx ∙ hy

grinning : is_utf8 (0xf0 ∷ 0x9f ∷ 0x98 ∷ 0x80 ∷ []) ≡ true
unfolding is_utf8
grinning = refl

surrogate : is_utf8 (0xed ∷ 0xa0 ∷ 0x80 ∷ []) ≡ false
unfolding is_utf8
surrogate = refl
