-- ===== src/Activity/StatNumbers.antt =====
-- The numbers of a stat line, read back from their decimal print.
use cgroup_research.Prelude.{
  ℕ, zero, suc, ◌+◌, ◌/◌, ◌%◌, ◌^◌, ◌<◌, ◌≡◌, refl, ap, ◌∙◌, inl, inr, Bool, true, false, not, ◌||◌,
  List, [], ◌∷◌, ◌++◌, All, some, ℤ, pos, negsuc, ◌==◌, length, arith, Bool-cases,
}
use cgroup_research.Prelude.Word.{Text}
use cgroup_research.Cgroup.Decimal.{digits_onto, print_pid}
use cgroup_research.Activity.Stat.{
  is_digit, Number, read_digits, ranged, read_unsigned, strtoll, skip_spaces, at_end,
  parse_stat_values,
}

-- A value of `long long`.
abbrev pub InRange : ℤ → Type 0
InRange (pos n) = n < 2 ^ 63
InRange (negsuc n) = n < 2 ^ 63

-- No digit comes first.
abbrev pub ends_number : Text → Bool
ends_number [] = true
ends_number (c ∷ s) = not (is_digit c)

-- Each number with a space before it, in front of the tail of the line.
unfoldable pub print_fields : List ℤ → Text → Text
unfolding print_pid
print_fields [] tail = tail
print_fields (v ∷ vs) tail = 32 ∷ (print_pid v ++ print_fields vs tail)

digits_onto-append :
    (fuel n : ℕ) (s t : Text) → digits_onto fuel n s ++ t ≡ digits_onto fuel n (s ++ t)
unfolding digits_onto
digits_onto-append zero n s t = refl
digits_onto-append (suc fuel) n s t = elim (Bool-cases (n / 10 == 0)) [
  | inl last ↦ rw last refl
  | inr more ↦ rw more (digits_onto-append fuel (n / 10) ((48 + n % 10) ∷ s) t)
]

-- A digit, in front of more text.
pub record Leads (s : Text) : Type 0 where
  pub first : ℕ
  pub others : Text
  pub is_first : s ≡ first ∷ others
  pub digit : is_digit first ≡ true

digit-Leads : (n : ℕ) (s : Text) → Leads ((48 + n % 10) ∷ s)
digit-Leads n s = record { first = 48 + n % 10; others = s; is_first = refl; digit = ground arith }

-- More digits in front of a digit.
more_digits-Leads : (fuel n : ℕ) (s : Text) → Leads s → Leads (digits_onto fuel n s)
unfolding digits_onto
more_digits-Leads zero n s h = h
more_digits-Leads (suc fuel) n s h = elim (Bool-cases (n / 10 == 0)) [
  | inl last ↦ rw last (digit-Leads n s)
  | inr more ↦ rw more (more_digits-Leads fuel (n / 10) ((48 + n % 10) ∷ s) (digit-Leads n s))
]

digits_onto-Leads : (fuel n : ℕ) (s : Text) → Leads (digits_onto (suc fuel) n s)
unfolding digits_onto
digits_onto-Leads fuel n s = elim (Bool-cases (n / 10 == 0)) [
  | inl last ↦ rw last (digit-Leads n s)
  | inr more ↦ rw more (more_digits-Leads fuel (n / 10) ((48 + n % 10) ∷ s) (digit-Leads n s))
]

read_digits-digits_onto :
    (fuel n : ℕ) (s : Text) → n < fuel → read_digits 0 (digits_onto fuel n s) ≡ read_digits n s
unfolding digits_onto read_digits
read_digits-digits_onto zero n s h = elim h [ ]
read_digits-digits_onto (suc fuel) n s h =
    let digit : is_digit (48 + n % 10) ≡ true = ground arith in
    elim (Bool-cases (n / 10 == 0)) [
      | inl last ↦ rw (last, digit) (ap (λ v. read_digits v s) (ground arith))
      | inr more ↦ rw more (
          read_digits-digits_onto fuel (n / 10) ((48 + n % 10) ∷ s) (ground arith)
          ∙ rw digit (ap (λ v. read_digits v s) (omega arith)))
    ]

read_digits-end : (n : ℕ) (s : Text) → ends_number s ≡ true → read_digits n s ≡ (n, s)
unfolding read_digits
read_digits-end n [] h = refl
read_digits-end n (c ∷ s) h = ground arith

-- A printed number is read in full, where no digit follows it.
read_digits-print :
    (n : ℕ) (s : Text)
    → ends_number s ≡ true
    → read_digits 0 (digits_onto (suc n) n [] ++ s) ≡ (n, s)
read_digits-print n s h =
    ap (read_digits 0) (digits_onto-append (suc n) n [] s)
    ∙ read_digits-digits_onto (suc n) n s (omega arith)
    ∙ read_digits-end n s h

strtoll-digit :
    (c : ℕ) (s : Text) → is_digit c ≡ true → strtoll (c ∷ s) ≡ ranged false (read_digits 0 (c ∷ s))
unfolding strtoll read_unsigned
strtoll-digit c s h = ground arith

read_unsigned-digit :
    (negative : Bool) (c : ℕ) (s : Text)
    → is_digit c ≡ true
    → read_unsigned negative (c ∷ s) ≡ ranged negative (read_digits 0 (c ∷ s))
unfolding read_unsigned
read_unsigned-digit negative c s h = rw h refl

Leads-append : (s t : Text) → Leads s → Leads (s ++ t)
Leads-append s t h = record {
  first = h.first;
  others = h.others ++ t;
  is_first = ap (λ x. x ++ t) h.is_first;
  digit = h.digit;
}

strtoll-Leads : (s : Text) → Leads s → strtoll s ≡ ranged false (read_digits 0 s)
strtoll-Leads s h = rw h.is_first (strtoll-digit h.first h.others h.digit)

read_unsigned-Leads :
    (negative : Bool) (s : Text)
    → Leads s
    → read_unsigned negative s ≡ ranged negative (read_digits 0 s)
read_unsigned-Leads negative s h =
    rw h.is_first (read_unsigned-digit negative h.first h.others h.digit)

-- A printed number in front of a text.
abbrev printed : ℕ → Text → Text
printed n s = digits_onto (suc n) n [] ++ s

printed-Leads : (n : ℕ) (s : Text) → Leads (printed n s)
printed-Leads n s = Leads-append _ s (digits_onto-Leads n n [])

strtoll-minus : (s : Text) → strtoll (45 ∷ s) ≡ read_unsigned true s
unfolding strtoll
strtoll-minus s = refl

strtoll-print :
    (v : ℤ) (s : Text)
    → InRange v
    → ends_number s ≡ true
    → strtoll (print_pid v ++ s) ≡ Number.number v s
unfolding print_pid ranged
strtoll-print (pos n) s r h =
    strtoll-Leads (printed n s) (printed-Leads n s)
    ∙ ap (ranged false) (read_digits-print n s h)
    ∙ ground arith
strtoll-print (negsuc n) s r h =
    strtoll-minus (printed (suc n) s)
    ∙ read_unsigned-Leads true (printed (suc n) s) (printed-Leads (suc n) s)
    ∙ ap (ranged true) (read_digits-print (suc n) s h)
    ∙ ground arith

-- Neither a space nor an end comes first.
abbrev pub is_solid : Text → Bool
is_solid [] = false
is_solid (c ∷ s) = not (c == 32 || (c == 0 || c == 10))

pub skip_spaces-solid : (s : Text) → is_solid s ≡ true → (skip_spaces s ≡ s) × (at_end s ≡ false)
unfolding skip_spaces
skip_spaces-solid [] h = cc
skip_spaces-solid (c ∷ s) h = ground arith

Leads-solid : (s : Text) → Leads s → is_solid s ≡ true
Leads-solid s h = let digit = h.digit in rw h.is_first (ground arith)

print-solid : (v : ℤ) (s : Text) → is_solid (print_pid v ++ s) ≡ true
unfolding print_pid
print-solid (pos n) s = Leads-solid (printed n s) (printed-Leads n s)
print-solid (negsuc n) s = refl

ends_number-print_fields :
    (vs : List ℤ) (tail : Text)
    → ends_number tail ≡ true
    → ends_number (print_fields vs tail) ≡ true
unfolding print_fields
ends_number-print_fields [] tail h = h
ends_number-print_fields (v ∷ vs) tail h = refl

pub skip_spaces-space : (s : Text) → skip_spaces (32 ∷ s) ≡ skip_spaces s
unfolding skip_spaces
skip_spaces-space s = refl

-- The loop reads back as many printed values as it is asked for.
pub parse_stat_values-print_fields :
    (vs : List ℤ) (tail : Text)
    → All InRange vs
    → ends_number tail ≡ true
    → parse_stat_values (length vs) (print_fields vs tail) ≡ some vs
unfolding parse_stat_values print_fields
parse_stat_values-print_fields [] tail r h = refl
parse_stat_values-print_fields (v ∷ vs) tail r h =
    let more = print_fields vs tail in
    let (kept, going) = skip_spaces-solid (print_pid v ++ more) (print-solid v more) in
    let spaced : skip_spaces (32 ∷ (print_pid v ++ more)) ≡ print_pid v ++ more =
      skip_spaces-space (print_pid v ++ more) ∙ kept in
    let value = strtoll-print v more r.0 (ends_number-print_fields vs tail h) in
    rw (spaced, going, value, parse_stat_values-print_fields vs tail r.1 h) refl
