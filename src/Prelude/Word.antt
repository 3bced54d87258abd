-- ===== src/Prelude/Word.antt =====
-- `uint64_t` and `size_t`, both 64 bits wide, as numbers with the wrap-around written out; and the
-- bytes of a C string in its buffer.
use Prim.Native.Nat.{ℕ, zero, suc, ◌+◌, ◌*◌, ◌-◌, ◌%◌, ◌^◌, ◌≤◌}
use mathlib.Core.List.{List, [], ◌∷◌}
use native.Mathlib.Omega.{arith}
use cgroup_research.Prelude.Tests.{◌==◌, if◌then◌else◌}

abbrev pub word : ℕ
word = 2 ^ 64

-- UINT64_MAX
abbrev pub uint64_max : ℕ
uint64_max = 2 ^ 64 - 1

abbrev pub add_u64 : ℕ → ℕ → ℕ
add_u64 a b = (a + b) % word

abbrev pub mul_u64 : ℕ → ℕ → ℕ
mul_u64 a b = (a * b) % word

-- a - b: the modulus is added first, since subtraction of numbers stops at 0.
abbrev pub sub_u64 : ℕ → ℕ → ℕ
sub_u64 a b = (a + word - b) % word

-- n++
abbrev pub inc : ℕ → ℕ
inc n = add_u64 n 1

abbrev pub Text : Type 0
Text = List ℕ

-- The index of the first NUL below `cap`, or `cap`. The end of the list is the end of the buffer.
unfoldable pub bounded_strlen : Text → ℕ → ℕ
bounded_strlen [] cap = 0
bounded_strlen (c ∷ s) zero = 0
bounded_strlen (c ∷ s) (suc cap) = let rest = bounded_strlen s cap in if c == 0 then 0 else suc rest

pub bounded_strlen-le : (s : Text) (cap : ℕ) → bounded_strlen s cap ≤ cap
unfolding bounded_strlen
bounded_strlen-le [] cap = omega arith
bounded_strlen-le (c ∷ s) zero = omega arith
bounded_strlen-le (c ∷ s) (suc cap) = ground (arith, bounded_strlen-le s cap)
