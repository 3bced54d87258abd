-- ===== src/Activity/Stat.antt =====
-- proc_activity.c: the parser of the line of /proc/<pid>/stat. A text ends with its NUL.
use cgroup_research.Prelude.{
  ℕ, zero, suc, ◌+◌, ◌-◌, ◌*◌, ◌^◌, Bool, true, false, ◌&&◌, ◌||◌, Option, none, some, List, [],
  ◌∷◌, ℤ, pos, negsuc, ltb, leb, ◌==◌, if◌then◌else◌,
}
use cgroup_research.Prelude.Word.{Text}
use cgroup_research.Activity.Delta.{ActivityRc, Sample}

abbrev pub is_digit : ℕ → Bool
is_digit c = leb 48 c && leb c 57

-- The white space that strtoll skips.
abbrev pub is_space : ℕ → Bool
is_space c = c == 32 || leb 9 c && leb c 13

-- What `strtoll(p, &endptr, 10)` gives: `endptr == p`, ERANGE, or the number and `endptr`.
pub data Number : Type 0 where
  no_number out_of_range : Number
  number : ℤ → Text → Number

-- The digits in front of a text, after those that have the value `v`.
unfoldable pub read_digits : ℕ → Text → ℕ × Text
read_digits v [] = (v, [])
read_digits v (c ∷ s) =
    let more = read_digits (v * 10 + (c - 48)) s in if is_digit c then more else (v, c ∷ s)

abbrev pub negated : ℕ → ℤ
negated zero = pos 0
negated (suc n) = negsuc n

unfoldable pub ranged : Bool → ℕ × Text → Number
ranged true (v, rest) =
    if ltb (2 ^ 63) v then Number.out_of_range else Number.number (negated v) rest
ranged false (v, rest) = if leb (2 ^ 63) v then Number.out_of_range else Number.number (pos v) rest

-- After the sign.
unfoldable pub read_unsigned : Bool → Text → Number
unfolding ranged read_digits
read_unsigned negative [] = Number.no_number
read_unsigned negative (c ∷ s) =
    if is_digit c then ranged negative (read_digits 0 (c ∷ s)) else Number.no_number

-- 45 is '-' and 43 is '+'.
unfoldable pub strtoll : Text → Number
unfolding read_unsigned
strtoll [] = Number.no_number
strtoll (c ∷ s) =
    let rest = strtoll s in
    if is_space c
    then rest
    else if c == 45
    then read_unsigned true s
    else if c == 43
    then read_unsigned false s
    else read_unsigned false (c ∷ s)

unfoldable pub skip_spaces : Text → Text
skip_spaces [] = []
skip_spaces (c ∷ s) = let rest = skip_spaces s in if c == 32 then rest else c ∷ s

-- `*p == '\0' || *p == '\n'`
abbrev pub at_end : Text → Bool
at_end [] = true
at_end (c ∷ s) = c == 0 || c == 10

-- The loop: `room` is what is left of `vals_cap`, and `none` is PROC_ACTIVITY_ERR_PARSE.
unfoldable pub parse_stat_values : ℕ → Text → Option (List ℤ)
parse_stat_values zero p = some []
parse_stat_values (suc room) p =
    if at_end (skip_spaces p) then some [] else elim (strtoll (skip_spaces p)) [
      | Number.no_number ↦ some []
      | Number.out_of_range ↦ none
      | Number.number value rest ↦ elim (parse_stat_values room rest) [
        | none ↦ none
        | some values ↦ some (value ∷ values)
      ]
    ]

-- `none` is PROC_ACTIVITY_ERR_PARSE.
abbrev pub checked_u64 : ℤ → Option ℕ
checked_u64 (pos n) = some n
checked_u64 (negsuc n) = none

-- `strchr`: the index of the first `c`.
unfoldable pub find_first : ℕ → Text → Option ℕ
find_first c [] = none
find_first c (d ∷ s) = elim (find_first c s) [
  | none ↦ if d == c then some 0 else none
  | some i ↦ if d == c then some 0 else some (suc i)
]

-- `strrchr`: the index of the last `c`.
unfoldable pub find_last : ℕ → Text → Option ℕ
find_last c [] = none
find_last c (d ∷ s) = elim (find_last c s) [
  | none ↦ if d == c then some 0 else none
  | some i ↦ some (suc i)
]

-- `s + n`
unfoldable pub from : ℕ → Text → Text
from zero s = s
from (suc n) [] = []
from (suc n) (c ∷ s) = from n s

-- vals[i]
unfoldable pub value_at : List ℤ → ℕ → ℤ
value_at [] i = pos 0
value_at (v ∷ vs) zero = v
value_at (v ∷ vs) (suc i) = value_at vs i

-- A call of checked_u64 with the return that follows it.
abbrev pub checked_into : ℤ → (ℕ → Sample → Sample) → ActivityRc × Sample → ActivityRc × Sample
checked_into value store (ActivityRc.ok, out) = elim (checked_u64 value) [
  | none ↦ (ActivityRc.parse, out)
  | some n ↦ (ActivityRc.ok, store n out)
]
checked_into value store (rc, out) = (rc, out)

-- After the last checked value.
abbrev pub complete : List ℤ → ActivityRc × Sample → ActivityRc × Sample
complete vals (ActivityRc.ok, out) = (
  ActivityRc.ok,
  record out { num_threads = value_at vals 16; rss_pages = value_at vals 20; valid = true },
)
complete vals (rc, out) = (rc, out)

-- The assignments from the values on.
unfoldable pub assign_values : List ℤ → Sample → ActivityRc × Sample
unfolding value_at
assign_values vals out =
    let r₁ = checked_into (value_at vals 6) (λ n o. record o { minflt = n }) (ActivityRc.ok, out) in
    let r₂ = checked_into (value_at vals 8) (λ n o. record o { majflt = n }) r₁ in
    let r₃ = checked_into (value_at vals 10) (λ n o. record o { utime_ticks = n }) r₂ in
    let r₄ = checked_into (value_at vals 11) (λ n o. record o { stime_ticks = n }) r₃ in
    let r₅ = checked_into (value_at vals 18) (λ n o. record o { starttime_ticks = n }) r₄ in
    let r₆ = checked_into (value_at vals 19) (λ n o. record o { vsize_bytes = n }) r₅ in
    complete vals r₆
