-- ===== src/Activity/StatLine.antt =====
-- A stat line as the kernel prints it, and what the parser makes of it: the process name stands in
-- parentheses, and may hold spaces and parentheses of its own.
use mathlib.Core.List.{append_assoc}
use cgroup_research.Prelude.{
  ℕ, zero, suc, ◌+◌, ◌-◌, ◌/◌, ◌%◌, ◌<◌, ◌≡◌, refl, sym, ap, ◌∙◌, inl, inr, true, false, List, [],
  ◌∷◌, ◌++◌, All, All-append, none, some, ℤ, Pid, pos, negsuc, ◌==◌, leb, take, length,
  length-append, arith, Bool-cases,
}
use cgroup_research.Prelude.Word.{Text}
use cgroup_research.Cgroup.Decimal.{digits_onto, print_pid}
use cgroup_research.Activity.Delta.{Sample, count_of}
use cgroup_research.Activity.Stat.{
  at_end, skip_spaces, find_first, find_last, from, parse_stat_values, assign_values,
}
use cgroup_research.Activity.Sampler.{Answers, with_values, with_state, with_name, parse_line}
use cgroup_research.Activity.StatNumbers.{
  InRange, ends_number, print_fields, is_solid, skip_spaces-solid, skip_spaces-space,
  parse_stat_values-print_fields,
}

-- The byte does not occur.
abbrev pub IsFree : ℕ → Text → Type 0
IsFree c s = All (λ d. (d == c) ≡ false) s

find_first-append :
    (c : ℕ) (xs ys : Text) → IsFree c xs → find_first c (xs ++ c ∷ ys) ≡ some (length xs)
unfolding find_first
find_first-append c [] ys h = elim (find_first c ys) [ none ↦ ground arith | some i ↦ ground arith ]
find_first-append c (d ∷ xs) ys h = rw (find_first-append c xs ys h.1, h.0) refl

find_last-free : (c : ℕ) (xs : Text) → IsFree c xs → find_last c xs ≡ none
unfolding find_last
find_last-free c [] h = refl
find_last-free c (d ∷ xs) h = rw (find_last-free c xs h.1, h.0) refl

find_last-append :
    (c : ℕ) (xs ys : Text) → IsFree c ys → find_last c (xs ++ c ∷ ys) ≡ some (length xs)
unfolding find_last
find_last-append c [] ys h = rw (find_last-free c ys h) (ground arith)
find_last-append c (d ∷ xs) ys h = rw (find_last-append c xs ys h) refl

from-append : (xs : Text) (c : ℕ) (ys : Text) → from (suc (length xs)) (xs ++ c ∷ ys) ≡ ys
unfolding from
from-append [] c ys = refl
from-append (d ∷ xs) c ys = from-append xs c ys

take-append : (xs ys : Text) → take (length xs) (xs ++ ys) ≡ xs
take-append [] ys = refl
take-append (d ∷ xs) ys = ap (λ s. d ∷ s) (take-append xs ys)

-- Digits and the sign are not among the bytes below them.
digits_onto-IsFree :
    (c fuel n : ℕ) (s : Text) → c < 45 → IsFree c s → IsFree c (digits_onto fuel n s)
unfolding digits_onto
digits_onto-IsFree c zero n s l h = h
digits_onto-IsFree c (suc fuel) n s l h =
    let digit : ((48 + n % 10) == c) ≡ false = ground arith in
    elim (Bool-cases (n / 10 == 0)) [
      | inl last ↦ rw last (digit, h)
      | inr more ↦ rw more (digits_onto-IsFree c fuel (n / 10) ((48 + n % 10) ∷ s) l (digit, h))
    ]

print-IsFree : (c : ℕ) (v : ℤ) → c < 45 → IsFree c (print_pid v)
unfolding print_pid
print-IsFree c (pos n) l = digits_onto-IsFree c (suc n) n [] l tt
print-IsFree c (negsuc n) l = (ground arith, digits_onto-IsFree c (suc (suc n)) (suc n) [] l tt)

print_fields-IsFree :
    (c : ℕ) (vs : List ℤ) (tail : Text)
    → c < 45
    → (32 == c) ≡ false
    → IsFree c tail
    → IsFree c (print_fields vs tail)
unfolding print_fields
print_fields-IsFree c [] tail l s h = h
print_fields-IsFree c (v ∷ vs) tail l s h =
    (s, All-append _ (print_pid v) _ (print-IsFree c v l) (print_fields-IsFree c vs tail l s h))

-- The parts of a line: the pid, the name, the state and the values from the fourth field on.
pub record StatLine : Type 0 where
  pub pid : Pid
  pub comm : Text
  pub state : ℕ
  pub values : List ℤ
  pub tail : Text

-- `pid (comm) state values tail`
unfoldable pub print_line : StatLine → Text
print_line l =
    (print_pid l.pid ++ (32 ∷ []))
    ++ (40 ∷ (l.comm ++ (41 ∷ 32 ∷ l.state ∷ print_fields l.values l.tail)))

-- What the kernel keeps to: the name is short, the state is a letter, the values are as many as the
-- parser asks for, each fits `long long`, and no parenthesis comes after the name.
pub record IsStatLine (l : StatLine) : Type 0 where
  pub comm_short : length l.comm < 64
  pub state_solid : is_solid (l.state ∷ []) ≡ true
  pub state_plain : (l.state == 41) ≡ false
  pub values_number : length l.values ≡ 21
  pub values_range : All InRange l.values
  pub tail_ends : ends_number l.tail ≡ true
  pub tail_plain : IsFree 41 l.tail

-- The sample with what the line names, before the counters.
abbrev pub named : Answers → Pid → StatLine → Sample → Sample
named answers pid l out = record out {
  comm = l.comm;
  state = l.state;
  pid = pid;
  clock_ticks_per_sec = answers.clock_ticks;
  page_size = count_of answers.page_size;
}

with_name_lem :
    (answers : Answers) (pid : Pid) (line comm rest : Text) (i n : ℕ) (out : Sample)
    → n < 64
    → take n (from (suc i) line) ≡ comm
    → from (suc (i + suc n)) line ≡ rest
    → with_name answers pid line (some i) (some (i + suc n)) out
      ≡ with_state answers pid (skip_spaces rest) (record out { comm = comm })
unfolding with_name
with_name_lem answers pid line comm rest i n out short c r =
    let order : leb (i + suc n) i ≡ false = ground arith in
    let number : i + suc n - i - 1 ≡ n = omega arith in
    let fits : leb 64 n ≡ false = ground arith in rw (order, number, fits, c, r) refl

with_state_lem :
    (answers : Answers) (pid : Pid) (l : StatLine) (out : Sample)
    → IsStatLine l
    → with_state answers pid (l.state ∷ print_fields l.values l.tail) out
      ≡ assign_values l.values (record out {
        state = l.state;
        pid = pid;
        clock_ticks_per_sec = answers.clock_ticks;
        page_size = count_of answers.page_size;
      })
unfolding with_state with_values
with_state_lem answers pid l out h =
    let number = h.values_number in
    let solid = h.state_solid in
    let going : at_end (l.state ∷ print_fields l.values l.tail) ≡ false = ground arith in
    let values : parse_stat_values 21 (print_fields l.values l.tail) ≡ some l.values =
      ap (λ n. parse_stat_values n (print_fields l.values l.tail)) (sym number)
      ∙ parse_stat_values-print_fields l.values l.tail h.values_range h.tail_ends in
    rw (going, values, number) refl

-- A stat line is read back field by field: whatever the name holds, spaces and parentheses included,
-- the parser finds its end, and takes the state and the values from behind it.
pub parse_line-print_line :
    (answers : Answers) (pid : Pid) (l : StatLine) (out : Sample)
    → IsStatLine l
    → parse_line answers pid (print_line l) out ≡ assign_values l.values (named answers pid l out)
unfolding parse_line print_line
parse_line-print_line answers pid l out h =
    let head = print_pid l.pid ++ (32 ∷ []) in
    let fields = print_fields l.values l.tail in
    let rest = 32 ∷ l.state ∷ fields in
    let line = head ++ (40 ∷ (l.comm ++ (41 ∷ rest))) in
    let n = length l.comm in
    let plain : IsFree 40 head =
      All-append _ (print_pid l.pid) (32 ∷ []) (print-IsFree 40 l.pid (omega arith)) (refl, tt) in
    let after : IsFree 41 rest = (
      refl,
      (h.state_plain, print_fields-IsFree 41 l.values l.tail (omega arith) refl h.tail_plain),
    ) in
    let first : find_first 40 line ≡ some (length head) = find_first-append 40 head _ plain in
    let split : line ≡ (head ++ (40 ∷ l.comm)) ++ (41 ∷ rest) =
      sym (append_assoc head (40 ∷ l.comm) (41 ∷ rest)) in
    let place : length (head ++ (40 ∷ l.comm)) ≡ length head + suc n =
      length-append head (40 ∷ l.comm) in
    let last : find_last 41 line ≡ some (length head + suc n) =
      ap (find_last 41) split ∙ find_last-append 41 _ rest after ∙ ap some place in
    let comm : take n (from (suc (length head)) line) ≡ l.comm =
      ap (take n) (from-append head 40 _) ∙ take-append l.comm _ in
    let behind : from (suc (length head + suc n)) line ≡ rest =
      ap (λ k. from (suc k) line) (sym place)
      ∙ ap (from (suc (length (head ++ (40 ∷ l.comm))))) split
      ∙ from-append _ 41 rest in
    let start : skip_spaces rest ≡ l.state ∷ fields =
      skip_spaces-space _ ∙ (skip_spaces-solid (l.state ∷ fields) h.state_solid).0 in
    rw (first, last)
      (with_name_lem answers pid line l.comm rest (length head) n out h.comm_short comm behind
        ∙ ap (λ p. with_state answers pid p (record out { comm = l.comm })) start
        ∙ with_state_lem answers pid l (record out { comm = l.comm }) h)
