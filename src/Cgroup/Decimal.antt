-- ===== src/Cgroup/Decimal.antt =====
-- The decimal text of a pid, as `snprintf` prints it with "%ld".
use cgroup_research.Prelude.{
  ℕ, zero, suc, ◌+◌, ◌*◌, ◌-◌, ◌/◌, ◌%◌, ◌<◌, ◌≡◌, sym, ap, ◌∙◌, true, [], ◌∷◌, Pid, pos, negsuc,
  positive, arith, ◌==◌, if◌then◌else◌, Bool-cases, inl, inr,
}
use cgroup_research.Prelude.Word.{Text}

-- The digits of `n` in front of a text. The fuel bounds their number.
unfoldable pub digits_onto : ℕ → ℕ → Text → Text
digits_onto zero n s = s
digits_onto (suc fuel) n s =
    let rest = digits_onto fuel (n / 10) ((48 + n % 10) ∷ s) in
    if n / 10 == 0 then (48 + n % 10) ∷ s else rest

unfoldable pub print_pid : Pid → Text
unfolding digits_onto
print_pid (pos n) = digits_onto (suc n) n []
print_pid (negsuc n) = 45 ∷ digits_onto (suc (suc n)) (suc n) []

-- The number that a text of digits adds to.
abbrev value_from : ℕ → Text → ℕ
value_from v [] = v
value_from v (c ∷ s) = value_from (v * 10 + (c - 48)) s

-- The fuel given is enough: reading the digits gives the number back.
value_from-digits_onto :
    (fuel n : ℕ) (s : Text) → n < fuel → value_from 0 (digits_onto fuel n s) ≡ value_from n s
unfolding digits_onto
value_from-digits_onto zero n s h = elim h [ ]
value_from-digits_onto (suc fuel) n s h = elim (Bool-cases (n / 10 == 0)) [
  | inl last ↦ rw last (ap (λ v. value_from v s) (ground arith))
  | inr more ↦ rw more (
      value_from-digits_onto fuel (n / 10) ((48 + n % 10) ∷ s) (ground arith)
      ∙ ap (λ v. value_from v s) (omega arith))
]

-- Two pids that the program moves are printed alike only if they are equal.
pub print_pid-injective :
    (p q : Pid) → positive p ≡ true → positive q ≡ true → print_pid p ≡ print_pid q → p ≡ q
unfolding print_pid positive
print_pid-injective (pos m) (pos n) hp hq h = ap pos (
    sym (value_from-digits_onto (suc m) m [] (omega arith))
    ∙ ap (value_from 0) h
    ∙ value_from-digits_onto (suc n) n [] (omega arith))
print_pid-injective (pos m) (negsuc n) hp hq h = cc
print_pid-injective (negsuc m) q hp hq h = cc
