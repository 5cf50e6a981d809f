-- ===== src/Common/Bytes.antt =====
-- Byte strings: a text literal's bytes, and the validity test of `str::from_utf8`.
pub mod Utf8
pub mod Decimal
use Prim.Native.Char.{Char, code}
use Prim.Native.String.{String}
use Prim.Native.Nat.{ℕ}
use mathlib.Core.List.{List, [], ◌∷◌}

abbrev pub Bytes : Type 0
Bytes = List ℕ

-- The bytes of a text literal, which is ASCII throughout the program.
abbrev pub bytes : String → Bytes
bytes String.[] = []
bytes (String.◌∷◌ c s) = code c ∷ bytes s
