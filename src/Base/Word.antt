-- ===== src/Base/Word.antt =====
-- A 32-bit `int` or `unsigned int` as its bit pattern, a number below 2 ^ 32. Sums and differences
-- wrap; a pattern from 2 ^ 31 on stands for a negative `int`.
use Prim.Native.Nat.{ℕ, ◌+◌, ◌-◌, ◌%◌, ◌^◌, compare, Ordering}

abbrev pub add32 : ℕ → ℕ → ℕ
add32 a b = (a + b) % 2 ^ 32

abbrev pub sub32 : ℕ → ℕ → ℕ
sub32 a b = (a + 2 ^ 32 - b) % 2 ^ 32

-- The sign of an `int`: `lt` for a negative one.
abbrev pub sign32 : ℕ → Ordering
sign32 c = elim (compare c 0) [
  | Ordering.gt ↦ elim (compare c (2 ^ 31)) [ Ordering.lt ↦ Ordering.gt | _ ↦ Ordering.lt ]
  | _ ↦ Ordering.eq
]
