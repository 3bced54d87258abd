-- ===== src/BankProfile/Merge.antt =====
-- The merge of two profiles: `bank_profile_merge` and `profile_finalize`.
use cgroup_research.Prelude.{
  ℕ, suc, ◌+◌, ◌≤◌, ◌<◌, ◌≡◌, refl, ◌⊎◌, inl, inr, true, false, some, pos, List, [], ◌∷◌, length,
  All, ltb, ◌==◌, if◌then◌else◌, arith, Bool-cases,
}
use cgroup_research.Prelude.Word.{word, add_u64}
use cgroup_research.Prelude.Double.{Double}
use cgroup_research.BankProfile.Profile.{
  max_entries, ProfileRc, Entry, BankProfile, count_in, add_bank_class_count, merge_entries,
  tally_entries, count_for_class, finalize, merged_page_size, finish_merge, merge,
}
use cgroup_research.BankProfile.Sums.{ClassesDistinct, total, count_absent}
use cgroup_research.BankProfile.Histogram.{IsHistogram, AddedCount, add_bank_class_count-AddedCount}

-- The sum of two histograms.
pub record Merged {W : Type 0} (xs es : List Entry) (out : ProfileRc × BankProfile W) : Type 0 where
  pub success : out.0 ≡ ProfileRc.ok
  pub histogram : IsHistogram out.1
  pub counts : (q : ℕ) → count_in out.1.entries q ≡ count_in xs q + count_in es q

absent :
    (c q : ℕ) (ys : List Entry)
    → All (λ x. (x.bank_class == c) ≡ false) ys
    → (c == q) ≡ true
    → count_in ys q ≡ 0
absent c q ys a s = ground (arith, count_absent c ys a)

module _ {W : Type 0} where
  merge_entries-Merged :
      (p : BankProfile W) (es : List Entry)
      → IsHistogram p
      → ClassesDistinct es
      → length p.entries + length es ≤ max_entries
      → total p.entries + total es < word
      → Merged p.entries es (merge_entries p es)
  unfolding merge_entries count_in
  merge_entries-Merged p [] h k r b = record {
    success = refl;
    histogram = h;
    counts = λ q. omega arith;
  }
  merge_entries-Merged p (e ∷ es) h k r b =
      let next = add_bank_class_count p e.bank_class e.page_count e.byte_count in
      elim (add_bank_class_count-AddedCount p e.bank_class e.page_count e.byte_count h
        (omega arith)) [
          | AddedCount.full rc size none_yet same ↦ absurd (no_room p.entries es size r)
          | AddedCount.done rc added histogram ↦
              let ih =
                merge_entries-Merged next.1 es histogram k.1 (omega (arith, added.grows))
                  (omega (arith, added.sum)) in
              rw rc (record {
                success = ih.success;
                histogram = ih.histogram;
                counts =
                    λ q. ground (arith, ih.counts q, added.counts q, absent e.bank_class q es k.0);
              })
        ]
    where
      no_room :
          (xs ys : List Entry)
          → length xs ≡ max_entries
          → length xs + suc (length ys) ≤ max_entries
          → ⊥
      no_room xs ys h l = omega arith

nothing_in : (es : List Entry) → (length es == 0) ≡ true → (q : ℕ) → count_in es q ≡ 0
unfolding count_in
nothing_in [] h q = refl
nothing_in (e ∷ es) h q = ground arith

module _ {W : Type 0} ⦃d : Double W⦄ where
  finish_merge-Merged :
      (xs es : List Entry) (out : ProfileRc × BankProfile W) (src : BankProfile W)
      → Merged xs es out
      → Merged xs es (finish_merge out src)
  unfolding finish_merge finalize
  finish_merge-Merged xs es (rc, p) src m = rw m.success (record {
    success = refl;
    histogram = record { fits = m.histogram.fits; apart = m.histogram.apart };
    counts = m.counts;
  })

  agreed_page_size :
      (dst src : BankProfile W)
      → (dst.page_size ≡ 0) ⊎ (dst.page_size ≡ src.page_size)
      → merged_page_size dst src ≡ some src.page_size
  unfolding merged_page_size
  agreed_page_size dst src h = ground arith

  -- The merge of a profile into another, whose page sizes agree, where the array has room and the
  -- pages are countable, succeeds; every class then has the pages that it had in either profile, and
  -- the classes are still distinct.
  pub merge-Merged :
      (dst src : BankProfile W)
      → IsHistogram dst
      → ClassesDistinct src.entries
      → 0 < src.page_size
      → (dst.page_size ≡ 0) ⊎ (dst.page_size ≡ src.page_size)
      → length dst.entries + length src.entries ≤ max_entries
      → total dst.entries + total src.entries < word
      → Merged dst.entries src.entries (merge dst src)
  unfolding merge
  merge-Merged dst src h k s t r b = elim (Bool-cases (length src.entries == 0)) [
    | inl none_there ↦ rw none_there (record {
      success = refl;
      histogram = h;
      counts = λ q. omega (arith, nothing_in src.entries none_there q);
    })
    | inr some_there ↦
        let sized : (src.page_size == 0) ≡ false = ground arith in
        let start = record dst { page_size = src.page_size; pid = pos 0 } in
        let looped = merge_entries start src.entries in
        let begun : IsHistogram start = record { fits = h.fits; apart = h.apart } in
        let merged = merge_entries-Merged start src.entries begun k r b in
        rw (some_there, sized, agreed_page_size dst src t)
          (finish_merge-Merged dst.entries src.entries looped src merged)
  ]

-- The loop ends with a count that is at least those it has met.
tally_entries_max :
    (es : List Entry) (t m c : ℕ)
    → (m ≤ (tally_entries es t m c).1) × All (λ e. e.page_count ≤ (tally_entries es t m c).1) es
unfolding tally_entries
tally_entries_max [] t m c = (omega arith, tt)
tally_entries_max (e ∷ es) t m c =
    let larger = ltb m e.page_count in
    let m' : ℕ = if larger then e.page_count else m in
    let c' : ℕ = if larger then e.bank_class else c in
    let ih = tally_entries_max es (add_u64 t e.page_count) m' c' in
    (ground (arith, ih.0), (ground (arith, ih.0), ih.1))

-- The largest count is that of the class, among the entries before or in these.
tally_entries_class :
    (es : List Entry) (t m c : ℕ)
    → ClassesDistinct es
    → (((tally_entries es t m c).1 ≡ m) × ((tally_entries es t m c).2 ≡ c))
      ⊎ (count_in es (tally_entries es t m c).2 ≡ (tally_entries es t m c).1)
unfolding tally_entries count_in
tally_entries_class [] t m c k = inl (refl, refl)
tally_entries_class (e ∷ es) t m c k =
    let larger = ltb m e.page_count in
    let m' : ℕ = if larger then e.page_count else m in
    let c' : ℕ = if larger then e.bank_class else c in
    let ih = tally_entries_class es (add_u64 t e.page_count) m' c' k.1 in
    let bound = tally_entries_max es (add_u64 t e.page_count) m' c' in
    elim ih [
      | inl left ↦ elim (Bool-cases (ltb m e.page_count)) [
        | inl more ↦ inr (ground arith)
        | inr less ↦ inl (ground arith, ground arith)
      ]
      | inr found ↦ inr (
          ground (
            arith,
            bound.0,
            absent e.bank_class (tally_entries es (add_u64 t e.page_count) m' c').2 es k.0,
          ))
    ]

count_in-le : (es : List Entry) (q m : ℕ) → All (λ e. e.page_count ≤ m) es → count_in es q ≤ m
unfolding count_in
count_in-le [] q m h = omega arith
count_in-le (e ∷ es) q m h = ground (arith, h.0, count_in-le es q m h.1)

module _ {W : Type 0} ⦃d : Double W⦄ where
  -- After `profile_finalize` no class of the profile has more pages than the dominant count, and the
  -- dominant class has just that many, where the classes are distinct.
  pub finalize-dominant :
      (p : BankProfile W)
      → ClassesDistinct p.entries
      → let p' = finalize p in
        All (λ e. e.page_count ≤ p'.dominant_page_count) p'.entries
        × (count_for_class (some p') p'.dominant_bank_class ≡ p'.dominant_page_count)
  unfolding finalize count_for_class
  finalize-dominant p k = (
    (tally_entries_max p.entries 0 0 0).1,
    elim (tally_entries_class p.entries 0 0 0 k) [
      | inl none_larger ↦
          let (_, all) = tally_entries_max p.entries 0 0 0 in
          let m = (tally_entries p.entries 0 0 0).1 in
          let c = (tally_entries p.entries 0 0 0).2 in
          omega (arith, none_larger.0, count_in-le p.entries c m all)
      | inr found ↦ found
    ],
  )
