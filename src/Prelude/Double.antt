-- ===== src/Prelude/Double.antt =====
-- What the program does with a `double`: comparisons, a finiteness test, literals, sums, products and
-- quotients, and conversions of counters. The type is a parameter, and so are its operations.
use Prim.Native.Nat.{ℕ, ◌+◌, ◌*◌, ◌/◌, ◌^◌}
use mathlib.Core.Bool.{Bool, true}
use cgroup_research.Prelude.Tests.{ltb, leb}

pub record Double (W : Type 0) : Type 0 where
  pub lt : W → W → Bool
  pub le : W → W → Bool
  pub is_finite : W → Bool
  pub mul : W → W → W
  pub add : W → W → W
  pub div : W → W → W
  -- `(double)n`
  pub of_u64 : ℕ → W
  -- `decimal n k` is the literal n / 10 ^ k, rounded
  pub decimal : ℕ → ℕ → W
  -- `ratio n d` is `(double)n / (double)d`
  pub ratio : ℕ → ℕ → W

module _ {W : Type 0} ⦃d : Double W⦄ where
  abbrev pub nought : W
  nought = d.decimal 0 0

  abbrev pub one : W
  one = d.decimal 1 0

-- The operations can be given: numbers in units of 1/10000, rounded down.
instance abbrev pub fixed_point : Double ℕ
fixed_point = record {
  lt = λ a b. ltb a b;
  le = λ a b. leb a b;
  is_finite = λ a. true;
  mul = λ a b. a * b / 10000;
  add = λ a b. a + b;
  div = λ a b. a * 10000 / b;
  of_u64 = λ n. n * 10000;
  decimal = λ n k. n * 10000 / 10 ^ k;
  ratio = λ n d. n * 10000 / d;
}
