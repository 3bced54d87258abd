-- ===== src/BankProfile/Sums.antt =====
-- Sums over the entries of two profiles, without wrap-around.
use cgroup_research.Prelude.{
  ℕ, ◌+◌, ◌≤◌, ◌<◌, ◌≡◌, refl, true, false, List, [], ◌∷◌, min, max, All, ◌==◌, if◌then◌else◌,
  arith, Bool-cases, inl, inr,
}
use cgroup_research.Prelude.Word.{word}
use cgroup_research.BankProfile.Profile.{
  Entry, count_in, class_among, overlap_first, overlap_second,
}

-- No two entries have the same class.
abbrev pub ClassesDistinct : List Entry → Type 0
ClassesDistinct [] = Unit
ClassesDistinct (e ∷ es) = All (λ x. (x.bank_class == e.bank_class) ≡ false) es × ClassesDistinct es

abbrev pub total : List Entry → ℕ
total [] = 0
total (e ∷ es) = e.page_count + total es

-- The pages that two profiles have in common, class by class.
abbrev pub shared : List Entry → List Entry → ℕ
shared [] b = 0
shared (e ∷ a) b = min e.page_count (count_in b e.bank_class) + shared a b

-- The larger of the two counts, over the classes of the first profile.
abbrev pub joined : List Entry → List Entry → ℕ
joined [] b = 0
joined (e ∷ a) b = max e.page_count (count_in b e.bank_class) + joined a b

abbrev covered : List Entry → List Entry → ℕ
covered [] b = 0
covered (e ∷ a) b = count_in b e.bank_class + covered a b

-- The pages of the second profile in classes that the first does not have.
abbrev pub fresh : List Entry → List Entry → ℕ
fresh a [] = 0
fresh a (f ∷ b) = (if class_among f.bank_class a then 0 else f.page_count) + fresh a b

pub count_absent :
    (c : ℕ) (b : List Entry) → All (λ x. (x.bank_class == c) ≡ false) b → count_in b c ≡ 0
unfolding count_in
count_absent c [] h = refl
count_absent c (e ∷ b) h = ground (arith, count_absent c b h.1)

-- What one more entry of the second profile adds.
shared-absent :
    (f : Entry) (a b : List Entry)
    → All (λ x. (x.bank_class == f.bank_class) ≡ false) a
    → shared a (f ∷ b) ≡ shared a b
unfolding count_in
shared-absent f [] b h = refl
shared-absent f (e ∷ a) b h = ground (arith, shared-absent f a b h.1)

covered-absent :
    (f : Entry) (a b : List Entry)
    → All (λ x. (x.bank_class == f.bank_class) ≡ false) a
    → covered a (f ∷ b) ≡ covered a b
unfolding count_in
covered-absent f [] b h = refl
covered-absent f (e ∷ a) b h = ground (arith, covered-absent f a b h.1)

absent-swap :
    (c k : ℕ) (a : List Entry)
    → (k == c) ≡ true
    → All (λ x. (x.bank_class == k) ≡ false) a
    → All (λ x. (x.bank_class == c) ≡ false) a
absent-swap c k [] e h = tt
absent-swap c k (x ∷ a) e h = (ground arith, absent-swap c k a e h.1)

class_among_absent :
    (c : ℕ) (a : List Entry) → All (λ x. (x.bank_class == c) ≡ false) a → class_among c a ≡ false
unfolding class_among
class_among_absent c [] h = refl
class_among_absent c (e ∷ a) h = ground (arith, class_among_absent c a h.1)

shared-cons :
    (f : Entry) (a b : List Entry)
    → ClassesDistinct a
    → count_in b f.bank_class ≡ 0
    → shared a (f ∷ b) ≡ min f.page_count (count_in a f.bank_class) + shared a b
unfolding count_in
shared-cons f [] b k h = ground arith
shared-cons f (e ∷ a) b k h = elim (Bool-cases (e.bank_class == f.bank_class)) [
  | inr ne ↦ ground (arith, shared-cons f a b k.1 h)
  | inl eq ↦ ground (arith, shared-absent f a b (absent-swap f.bank_class e.bank_class a eq k.0))
]

covered-cons :
    (f : Entry) (a b : List Entry)
    → ClassesDistinct a
    → count_in b f.bank_class ≡ 0
    → covered a (f ∷ b) ≡ (if class_among f.bank_class a then f.page_count else 0) + covered a b
unfolding count_in class_among
covered-cons f [] b k h = ground arith
covered-cons f (e ∷ a) b k h = elim (Bool-cases (e.bank_class == f.bank_class)) [
  | inr ne ↦ ground (arith, covered-cons f a b k.1 h)
  | inl eq ↦ ground (arith, covered-absent f a b (absent-swap f.bank_class e.bank_class a eq k.0))
]

shared-empty : (a : List Entry) → shared a [] ≡ 0
unfolding count_in
shared-empty [] = refl
shared-empty (e ∷ a) = ground (arith, shared-empty a)

covered-empty : (a : List Entry) → covered a [] ≡ 0
unfolding count_in
covered-empty [] = refl
covered-empty (e ∷ a) = ground (arith, covered-empty a)

pub shared-sym :
    (a b : List Entry) → ClassesDistinct a → ClassesDistinct b → shared a b ≡ shared b a
shared-sym a [] k l = shared-empty a
shared-sym a (f ∷ b) k l =
    omega (arith, shared-cons f a b k (count_absent f.bank_class b l.0), shared-sym a b k l.1)

-- Every page of the second profile is in a class of the first, or in none.
covered-fresh :
    (a b : List Entry) → ClassesDistinct a → ClassesDistinct b → covered a b + fresh a b ≡ total b
covered-fresh a [] k l = ground (arith, covered-empty a)
covered-fresh a (f ∷ b) k l =
    ground (arith, covered-cons f a b k (count_absent f.bank_class b l.0), covered-fresh a b k l.1)

shared-joined : (a b : List Entry) → shared a b + joined a b ≡ total a + covered a b
shared-joined [] b = refl
shared-joined (e ∷ a) b = ground (arith, shared-joined a b)

-- Intersection and union have as many pages as the two profiles.
pub shared-joined-fresh :
    (a b : List Entry)
    → ClassesDistinct a
    → ClassesDistinct b
    → shared a b + (joined a b + fresh a b) ≡ total a + total b
shared-joined-fresh a b k l = omega (arith, shared-joined a b, covered-fresh a b k l)

pub shared-le : (a b : List Entry) → shared a b ≤ joined a b
shared-le [] b = omega arith
shared-le (e ∷ a) b = ground (arith, shared-le a b)

-- The loops compute these sums where they fit in a word.
pub overlap_first_lem :
    (a b : List Entry) (i u : ℕ)
    → i + shared a b < word
    → u + joined a b < word
    → overlap_first a b (i, u) ≡ (i + shared a b, u + joined a b)
unfolding overlap_first
overlap_first_lem [] b i u h l = ground arith
overlap_first_lem (e ∷ a) b i u h l =
    let n = count_in b e.bank_class in
    ground (
      arith,
      overlap_first_lem a b (i + min e.page_count n) (u + max e.page_count n) (omega arith)
          (omega arith),
    )

pub overlap_second_lem :
    (a b : List Entry) (u : ℕ) → u + fresh a b < word → overlap_second a b u ≡ u + fresh a b
unfolding overlap_second
overlap_second_lem a [] u h = omega arith
overlap_second_lem a (f ∷ b) u h =
    let n = if class_among f.bank_class a then 0 else f.page_count in
    ground (arith, overlap_second_lem a b (u + n) (omega arith))
