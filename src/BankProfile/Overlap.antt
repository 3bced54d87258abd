-- ===== src/BankProfile/Overlap.antt =====
-- The overlap score of two profiles.
use cgroup_research.Prelude.{
  ℕ, ◌+◌, ◌≤◌, ◌<◌, ◌≡◌, refl, sym, ◌∙◌, inl, inr, true, false, Option, [], ◌∷◌, none, some, List,
  length, ◌==◌, arith, Bool-cases,
}
use cgroup_research.Prelude.Word.{word}
use cgroup_research.Prelude.Double.{Double}
use cgroup_research.BankProfile.Profile.{
  ProfileRc, Entry, BankProfile, overlap_first, overlapped, overlap_score,
}
use cgroup_research.BankProfile.Sums.{
  ClassesDistinct, total, shared, joined, fresh, shared-sym, shared-joined-fresh, shared-le,
  overlap_first_lem, overlap_second_lem,
}

-- The pages of two profiles can be counted in one word, and each has a class once.
pub record Comparable (a b : List Entry) : Type 0 where
  pub first_distinct : ClassesDistinct a
  pub second_distinct : ClassesDistinct b
  pub countable : total a + total b < word

Comparable-swap : (xs ys : List Entry) → Comparable xs ys → Comparable ys xs
Comparable-swap xs ys c = record {
  first_distinct = c.second_distinct;
  second_distinct = c.first_distinct;
  countable = omega (arith, c.countable);
}

non_empty : (es : List Entry) → 0 < total es → (length es == 0) ≡ false
non_empty [] h = elim h [ ]
non_empty (e ∷ es) h = ground arith

module _ {W : Type 0} ⦃d : Double W⦄ where
  -- The score of two profiles is the ratio of the pages in common to the pages of the union, class by
  -- class, and neither sum wraps.
  overlap_score_sums :
      (a b : BankProfile W)
      → Comparable a.entries b.entries
      → (length a.entries == 0) ≡ false
      → (length b.entries == 0) ≡ false
      → overlap_score (some a) (some b)
        ≡ overlapped
            (shared a.entries b.entries)
            (joined a.entries b.entries + fresh a.entries b.entries)
  unfolding overlap_score
  overlap_score_sums a b c na nb =
      let xs = a.entries in
      let ys = b.entries in
      let sums = shared-joined-fresh xs ys c.first_distinct c.second_distinct in
      let first : overlap_first xs ys (0, 0) ≡ (shared xs ys, joined xs ys) =
        ground (arith, overlap_first_lem xs ys 0 0 (omega (arith, c)) (omega (arith, c))) in
      let second = overlap_second_lem xs ys (joined xs ys) (omega (arith, c)) in
      rw (na, nb, first, second) refl

  -- An empty profile has no overlap, on either side.
  overlap_score-empty :
      (a b : BankProfile W)
      → (length a.entries == 0) ≡ true
      → (overlap_score (some a) (some b) ≡ (ProfileRc.invalid_arg, none))
        × (overlap_score (some b) (some a) ≡ (ProfileRc.invalid_arg, none))
  unfolding overlap_score
  overlap_score-empty a b h = ground arith

  -- The overlap does not depend on which profile comes first: the return code, the score and the
  -- common pages are the same, for profiles whose classes are distinct and whose pages can be counted
  -- in one word.
  pub overlap_score-sym :
      (a b : BankProfile W)
      → Comparable a.entries b.entries
      → overlap_score (some a) (some b) ≡ overlap_score (some b) (some a)
  overlap_score-sym a b c = elim (Bool-cases (length a.entries == 0)) [
    | inl e ↦ let (h, k) = overlap_score-empty a b e in h ∙ sym k
    | inr na ↦ elim (Bool-cases (length b.entries == 0)) [
      | inl e ↦ let (h, k) = overlap_score-empty b a e in k ∙ sym h
      | inr nb ↦
          let xs = a.entries in
          let ys = b.entries in
          let swapped = Comparable-swap xs ys c in
          let same = shared-sym xs ys c.first_distinct c.second_distinct in
          let sums = shared-joined-fresh xs ys c.first_distinct c.second_distinct in
          let sums' = shared-joined-fresh ys xs c.second_distinct c.first_distinct in
          let union : joined xs ys + fresh xs ys ≡ joined ys xs + fresh ys xs = omega arith in
          rw (overlap_score_sums a b c na nb, overlap_score_sums b a swapped nb na, same, union)
            refl
    ]
  ]

  -- What a comparison that succeeds gives: the score is the quotient of the common pages and of the
  -- union, which is not empty; the common pages are at most those of the union, and both together are
  -- the pages of the two profiles.
  pub record Compared (a b : List Entry) (result : ProfileRc × Option (W × ℕ)) : Type 0 where
    pub common : ℕ
    pub union : ℕ
    pub outcome : result ≡ (ProfileRc.ok, some (d.ratio common union, common))
    pub some_pages : 0 < union
    pub at_most : common ≤ union
    pub all_pages : common + union ≡ total a + total b

  -- A comparison of two profiles that have entries, and pages, succeeds with a quotient of at most
  -- one: the common pages are at most those of the union, and the two add up to the pages of both.
  pub overlap_score-Compared :
      (a b : BankProfile W)
      → Comparable a.entries b.entries
      → 0 < total a.entries
      → 0 < total b.entries
      → Compared a.entries b.entries (overlap_score (some a) (some b))
  unfolding overlapped
  overlap_score-Compared a b c pa pb =
      let xs = a.entries in
      let ys = b.entries in
      let sums = shared-joined-fresh xs ys c.first_distinct c.second_distinct in
      let at_most = shared-le xs ys in
      record {
        common = shared xs ys;
        union = joined xs ys + fresh xs ys;
        outcome = rw (overlap_score_sums a b c (non_empty xs pa) (non_empty ys pb)) (ground arith);
        some_pages = omega arith;
        at_most = omega arith;
        all_pages = omega arith;
      }
