-- ===== src/BankProfile/Histogram.antt =====
-- The histogram that `profile_add_bank_class_count` and `bank_profile_merge` build.
use cgroup_research.Prelude.{
  ℕ, ◌+◌, ◌≤◌, ◌<◌, suc, ap, ◌≡◌, refl, ◌⊎◌, inl, inr, true, false, none, some, List, [], ◌∷◌, ◌++◌,
  length, length-append, All, All-append, leb, ◌&&◌, ◌==◌, if◌then◌else◌, arith, Bool-cases,
  Option-cases,
}
use cgroup_research.Prelude.Word.{word, add_u64}
use cgroup_research.BankProfile.Profile.{
  max_entries, ProfileRc, Entry, BankProfile, count_in, add_to_entry, append_entry,
  add_bank_class_count,
}
use cgroup_research.BankProfile.Sums.{ClassesDistinct, total, count_absent}

-- A list of entries as the map from classes to page counts: after an addition.
pub record Added (es es' : List Entry) (c pages : ℕ) : Type 0 where
  pub counts : (q : ℕ) → count_in es' q ≡ count_in es q + (if c == q then pages else 0)
  pub sum : total es' ≡ total es + pages
  pub distinct : ClassesDistinct es'
  pub grows : length es' ≤ suc (length es)

-- The ways an addition to the entries can go.
add_to_entry-cases :
    (e : Entry) (es es' : List Entry) (c pages bytes : ℕ)
    → add_to_entry (e ∷ es) c pages bytes ≡ some es'
    → let e' = record e {
      page_count = add_u64 e.page_count pages;
      byte_count = add_u64 e.byte_count bytes;
    } in
      (((e.bank_class == c) ≡ true) × (es' ≡ (e' ∷ es)))
      ⊎ (((e.bank_class == c) ≡ false)
          × ((later : List Entry) × (add_to_entry es c pages bytes ≡ some later)
              × (es' ≡ (e ∷ later))))
unfolding add_to_entry
add_to_entry-cases e es es' c pages bytes h = elim (Bool-cases (e.bank_class == c)) [
  | inl eq ↦ inl (eq, ground arith)
  | inr ne ↦ elim (Option-cases (add_to_entry es c pages bytes)) [
    | inl gone ↦ ground arith
    | inr (later, found) ↦ inr (ne, (later, found, ground arith))
  ]
]

-- The other classes stay absent.
add_to_entry-absent :
    (es es' : List Entry) (c pages bytes k : ℕ)
    → add_to_entry es c pages bytes ≡ some es'
    → All (λ x. (x.bank_class == k) ≡ false) es
    → All (λ x. (x.bank_class == k) ≡ false) es'
add_to_entry-absent [] es' c pages bytes k h a = unfold add_to_entry in cc
add_to_entry-absent (e ∷ es) es' c pages bytes k h a =
    elim (add_to_entry-cases e es es' c pages bytes h) [
      | inl (eq, same) ↦ rw same (a.0, a.1)
      | inr (ne, (later, found, same)) ↦
          rw same (a.0, add_to_entry-absent es later c pages bytes k found a.1)
    ]

add_to_entry-Added :
    (es es' : List Entry) (c pages bytes : ℕ)
    → ClassesDistinct es
    → total es + pages < word
    → add_to_entry es c pages bytes ≡ some es'
    → Added es es' c pages
unfolding count_in
add_to_entry-Added [] es' c pages bytes k b h = unfold add_to_entry in cc
add_to_entry-Added (e ∷ es) es' c pages bytes k b h =
    elim (add_to_entry-cases e es es' c pages bytes h) [
      | inl (eq, same) ↦ rw same (record {
        counts = λ q. ground arith;
        sum = omega arith;
        distinct = (k.0, k.1);
        grows = omega arith;
      })
      | inr (ne, (later, found, same)) ↦
          let ih = add_to_entry-Added es later c pages bytes k.1 (omega arith) found in
          rw same (record {
            counts = λ q. ground (arith, ih.counts q);
            sum = omega (arith, ih.sum);
            distinct =
                (add_to_entry-absent es later c pages bytes e.bank_class found k.0, ih.distinct);
            grows = omega (arith, ih.grows);
          })
    ]

length-add_to_entry :
    (es es' : List Entry) (c pages bytes : ℕ)
    → add_to_entry es c pages bytes ≡ some es'
    → length es' ≡ length es
length-add_to_entry [] es' c pages bytes h = unfold add_to_entry in cc
length-add_to_entry (e ∷ es) es' c pages bytes h =
    elim (add_to_entry-cases e es es' c pages bytes h) [
      | inl (eq, same) ↦ rw same refl
      | inr (ne, (later, found, same)) ↦
          rw same (ap suc (length-add_to_entry es later c pages bytes found))
    ]

-- Where no entry has the class, it is absent.
add_to_entry_none :
    (es : List Entry) (c pages bytes : ℕ)
    → add_to_entry es c pages bytes ≡ none
    → All (λ x. (x.bank_class == c) ≡ false) es
unfolding add_to_entry
add_to_entry_none [] c pages bytes h = tt
add_to_entry_none (e ∷ es) c pages bytes h = elim (Bool-cases (e.bank_class == c)) [
  | inl eq ↦ ground arith
  | inr ne ↦ elim (Option-cases (add_to_entry es c pages bytes)) [
    | inl gone ↦ (ne, add_to_entry_none es c pages bytes gone)
    | inr (later, found) ↦ ground arith
  ]
]

append-Added :
    (es : List Entry) (e : Entry)
    → ClassesDistinct es
    → All (λ x. (x.bank_class == e.bank_class) ≡ false) es
    → Added es (es ++ (e ∷ [])) e.bank_class e.page_count
unfolding count_in
append-Added [] e k a = record {
  counts = λ q. ground arith;
  sum = omega arith;
  distinct = (tt, tt);
  grows = omega arith;
}
append-Added (x ∷ es) e k a =
    let ih = append-Added es e k.1 a.1 in
    record {
      counts = λ q. ground (arith, ih.counts q);
      sum = omega (arith, ih.sum);
      distinct = (
        All-append (λ y. (y.bank_class == x.bank_class) ≡ false) es (e ∷ []) k.0 (ground arith, tt),
        ih.distinct,
      );
      grows = omega (arith, ih.grows);
    }

module _ {W : Type 0} where
  -- A profile that can hold its classes.
  pub record IsHistogram (p : BankProfile W) : Type 0 where
    pub fits : length p.entries ≤ max_entries
    pub apart : ClassesDistinct p.entries

  -- What an addition to a profile may do: it adds the pages to the count of their class and to no
  -- other, or finds the array full and leaves the entries.
  pub data AddedCount (p : BankProfile W) (c pages : ℕ) (out : ProfileRc × BankProfile W)
      : Type 0 where
    done :
        out.0 ≡ ProfileRc.ok
        → Added p.entries out.1.entries c pages
        → IsHistogram out.1
        → AddedCount p c pages out
    full :
        out.0 ≡ ProfileRc.too_many_classes
        → length p.entries ≡ max_entries
        → count_in p.entries c ≡ 0
        → out.1.entries ≡ p.entries
        → AddedCount p c pages out

  append_entry-AddedCount :
      (p : BankProfile W) (e : Entry)
      → IsHistogram p
      → All (λ x. (x.bank_class == e.bank_class) ≡ false) p.entries
      → AddedCount p e.bank_class e.page_count (append_entry p e)
  unfolding append_entry
  append_entry-AddedCount p e h a = elim (Bool-cases (leb max_entries (length p.entries))) [
    | inl no_room ↦
        rw no_room (
          AddedCount.full refl (ground (arith, h.fits)) (count_absent e.bank_class p.entries a)
            refl)
    | inr room ↦
        let added = append-Added p.entries e h.apart a in
        rw room (
          AddedCount.done refl added (record {
            fits = ground (arith, length-append p.entries (e ∷ []));
            apart = added.distinct;
          }))
  ]

  -- An addition to a profile with distinct classes, whose pages stay countable, adds the pages to
  -- the count of their class and to no other, and keeps the classes distinct; or the array is full, has
  -- no entry of the class, and is left alone.
  pub add_bank_class_count-AddedCount :
      (p : BankProfile W) (c pages bytes : ℕ)
      → IsHistogram p
      → total p.entries + pages < word
      → AddedCount p c pages (add_bank_class_count p c pages bytes)
  unfolding add_bank_class_count
  add_bank_class_count-AddedCount p c pages bytes h b =
      elim (Bool-cases (pages == 0 && bytes == 0)) [
        | inl nothing ↦ rw nothing (
            AddedCount.done refl
              (record {
                counts = λ q. ground arith;
                sum = ground arith;
                distinct = h.apart;
                grows = omega arith;
              })
              h)
        | inr some_pages ↦ elim (Option-cases (add_to_entry p.entries c pages bytes)) [
          | inr (es, found) ↦
              let added = add_to_entry-Added p.entries es c pages bytes h.apart b found in
              rw (some_pages, found)
                (AddedCount.done refl added (record {
                  fits =
                      omega (arith, h.fits, length-add_to_entry p.entries es c pages bytes found);
                  apart = added.distinct;
                }))
          | inl absent ↦
              rw (some_pages, absent)
                (append_entry-AddedCount p _ h (add_to_entry_none p.entries c pages bytes absent))
        ]
      ]
