-- ===== src/BankProfile/Profile.antt =====
-- bank_profile.c: a histogram of bank classes, its merge and its overlap with another.
use cgroup_research.Prelude.{
  ℕ, Bool, true, false, ◌&&◌, ◌||◌, Option, none, some, List, [], ◌∷◌, ◌++◌, Pid, pos, length, ltb,
  leb, ◌==◌, if◌then◌else◌,
}
use cgroup_research.Prelude.Word.{add_u64}
use cgroup_research.Prelude.Double.{Double, nought}

-- BANK_PROFILE_MAX_ENTRIES
abbrev pub max_entries : ℕ
max_entries = 4096

-- `enum bank_profile_rc`
pub data ProfileRc : Type 0 where
  ok invalid_arg not_ready page_size open_maps addr_open too_many_classes no_samples io : ProfileRc

-- `rc == BANK_PROFILE_OK`
abbrev pub is_ok : ProfileRc → Bool
is_ok ProfileRc.ok = true
is_ok _ = false

-- `struct bank_profile_entry`
pub record Entry : Type 0 where
  pub bank_class : ℕ
  pub page_count : ℕ
  pub byte_count : ℕ

-- The texts of `error_message` that these functions write.
pub data ProfileError : Type 0 where
  empty too_many invalid_page_size different_page_sizes : ProfileError
  no_page_size no_maps no_pagemap maps_unread no_pages : ProfileError

-- The counters of `struct bank_profile`.
pub record Counters : Type 0 where
  pub regions_seen : ℕ
  pub regions_selected : ℕ
  pub pages_seen : ℕ
  pub pages_considered : ℕ
  pub pages_sampled : ℕ
  pub pages_translated : ℕ
  pub pages_skipped_not_present : ℕ
  pub pages_skipped_swapped : ℕ
  pub pages_skipped_pfn_unavailable : ℕ
  pub pages_skipped_translation_error : ℕ
  pub pages_skipped_mapping_error : ℕ

-- `struct bank_profile`: `entries` lists the first `entry_count` elements of the array.
pub record BankProfile (W : Type 0) : Type 0 where
  pub pid : Pid
  pub page_size : ℕ
  pub counters : Counters
  pub entries : List Entry
  pub dominant_bank_class : ℕ
  pub dominant_page_count : ℕ
  pub dominant_fraction : W
  pub error_message : ProfileError

-- The page count of a class in a list of entries: the first of that class.
unfoldable pub count_in : List Entry → ℕ → ℕ
count_in [] bank_class = 0
count_in (e ∷ es) bank_class =
    if e.bank_class == bank_class then e.page_count else count_in es bank_class

-- The first loop of `profile_add_bank_class_count`: `none` where no entry has the class.
unfoldable pub add_to_entry : List Entry → ℕ → ℕ → ℕ → Option (List Entry)
add_to_entry [] bank_class pages bytes = none
add_to_entry (e ∷ es) bank_class pages bytes =
    let rest = add_to_entry es bank_class pages bytes in
    if e.bank_class == bank_class
    then some (
        record e {
          page_count = add_u64 e.page_count pages;
          byte_count = add_u64 e.byte_count bytes;
        }
        ∷ es)
    else elim rest [ none ↦ none | some es' ↦ some (e ∷ es') ]

-- A counter of each profile, added with wrap-around.
unfoldable pub merge_counters : Counters → Counters → Counters
merge_counters a b = record {
  regions_seen = add_u64 a.regions_seen b.regions_seen;
  regions_selected = add_u64 a.regions_selected b.regions_selected;
  pages_seen = add_u64 a.pages_seen b.pages_seen;
  pages_considered = add_u64 a.pages_considered b.pages_considered;
  pages_sampled = add_u64 a.pages_sampled b.pages_sampled;
  pages_translated = add_u64 a.pages_translated b.pages_translated;
  pages_skipped_not_present = add_u64 a.pages_skipped_not_present b.pages_skipped_not_present;
  pages_skipped_swapped = add_u64 a.pages_skipped_swapped b.pages_skipped_swapped;
  pages_skipped_pfn_unavailable =
      add_u64 a.pages_skipped_pfn_unavailable b.pages_skipped_pfn_unavailable;
  pages_skipped_translation_error =
      add_u64 a.pages_skipped_translation_error b.pages_skipped_translation_error;
  pages_skipped_mapping_error = add_u64 a.pages_skipped_mapping_error b.pages_skipped_mapping_error;
}

module _ {W : Type 0} where
  -- No class had the count, so it is a new entry, if there is room.
  unfoldable pub append_entry : BankProfile W → Entry → ProfileRc × BankProfile W
  append_entry p e =
      if leb max_entries (length p.entries)
      then (ProfileRc.too_many_classes, record p { error_message = ProfileError.too_many })
      else (ProfileRc.ok, record p { entries = p.entries ++ (e ∷ []) })

  unfoldable pub add_bank_class_count : BankProfile W → ℕ → ℕ → ℕ → ProfileRc × BankProfile W
  unfolding append_entry
  add_bank_class_count p bank_class pages bytes =
      if pages == 0 && bytes == 0
      then (ProfileRc.ok, p)
      else elim (add_to_entry p.entries bank_class pages bytes) [
        | some es ↦ (ProfileRc.ok, record p { entries = es })
        | none ↦
            append_entry p
              (record { bank_class = bank_class; page_count = pages; byte_count = bytes })
      ]

  unfoldable pub count_for_class : Option (BankProfile W) → ℕ → ℕ
  count_for_class none bank_class = 0
  count_for_class (some p) bank_class = count_in p.entries bank_class

  -- The loop over the entries of the source, with its early return.
  unfoldable pub merge_entries : BankProfile W → List Entry → ProfileRc × BankProfile W
  merge_entries p [] = (ProfileRc.ok, p)
  merge_entries p (e ∷ es) =
      let (rc, p') = add_bank_class_count p e.bank_class e.page_count e.byte_count in
      let rest = merge_entries p' es in if is_ok rc then rest else (rc, p')

-- The loop of `profile_finalize`: the sum of the counts, the largest and its class.
unfoldable pub tally_entries : List Entry → ℕ → ℕ → ℕ → ℕ × ℕ × ℕ
tally_entries [] total max_count max_class = (total, max_count, max_class)
tally_entries (e ∷ es) total max_count max_class =
    let larger = ltb max_count e.page_count in
    tally_entries es (add_u64 total e.page_count) (if larger then e.page_count else max_count)
      (if larger then e.bank_class else max_class)

-- The first loop of `bank_profile_overlap_score`.
unfoldable pub overlap_first : List Entry → List Entry → ℕ × ℕ → ℕ × ℕ
overlap_first [] b acc = acc
overlap_first (e ∷ es) b (intersection, union_count) =
    let count_b = count_in b e.bank_class in
    overlap_first es b (
      add_u64 intersection (if ltb e.page_count count_b then e.page_count else count_b),
      add_u64 union_count (if ltb count_b e.page_count then e.page_count else count_b),
    )

unfoldable pub class_among : ℕ → List Entry → Bool
class_among bank_class [] = false
class_among bank_class (e ∷ es) = e.bank_class == bank_class || class_among bank_class es

-- The second loop: the classes that the first profile does not have.
unfoldable pub overlap_second : List Entry → List Entry → ℕ → ℕ
overlap_second a [] union_count = union_count
overlap_second a (e ∷ es) union_count =
    overlap_second a es
      (if class_among e.bank_class a then union_count else add_u64 union_count e.page_count)

module _ {W : Type 0} ⦃d : Double W⦄ where
  unfoldable pub finalize : BankProfile W → BankProfile W
  finalize p =
      let (total, max_count, max_class) = tally_entries p.entries 0 0 0 in
      record p {
        dominant_bank_class = max_class;
        dominant_page_count = max_count;
        dominant_fraction = if ltb 0 total then d.ratio max_count total else nought;
      }

  -- The page size of the result, or the error.
  unfoldable pub merged_page_size : BankProfile W → BankProfile W → Option ℕ
  merged_page_size dst src =
      if dst.page_size == 0
      then some src.page_size
      else if dst.page_size == src.page_size
      then some dst.page_size
      else none

  unfoldable pub finish_merge :
      ProfileRc × BankProfile W → BankProfile W → ProfileRc × BankProfile W
  finish_merge (ProfileRc.ok, p) src =
      (ProfileRc.ok, finalize (record p { counters = merge_counters p.counters src.counters }))
  finish_merge (rc, p) src = (rc, p)

  -- The pointers are no null pointers, and do not point at one profile.
  unfoldable pub merge : BankProfile W → BankProfile W → ProfileRc × BankProfile W
  unfolding merged_page_size finish_merge
  merge dst src =
      if length src.entries == 0
      then (ProfileRc.ok, dst)
      else if src.page_size == 0
      then (ProfileRc.page_size, record dst { error_message = ProfileError.invalid_page_size })
      else elim (merged_page_size dst src) [
        | none ↦
            (ProfileRc.page_size, record dst { error_message = ProfileError.different_page_sizes })
        | some size ↦
            finish_merge (merge_entries (record dst { page_size = size; pid = pos 0 }) src.entries)
              src
      ]

  unfoldable pub overlapped : ℕ → ℕ → ProfileRc × Option (W × ℕ)
  overlapped intersection union_count =
      if union_count == 0
      then (ProfileRc.no_samples, none)
      else (ProfileRc.ok, some (d.ratio intersection union_count, intersection))

  -- The score and the common pages, which go through the output pointers on success only.
  unfoldable pub overlap_score :
      Option (BankProfile W) → Option (BankProfile W) → ProfileRc × Option (W × ℕ)
  unfolding overlapped
  overlap_score none b = (ProfileRc.invalid_arg, none)
  overlap_score (some a) none = (ProfileRc.invalid_arg, none)
  overlap_score (some a) (some b) =
      if length a.entries == 0 || length b.entries == 0
      then (ProfileRc.invalid_arg, none)
      else let (intersection, union_count) = overlap_first a.entries b.entries (0, 0) in
        overlapped intersection (overlap_second a.entries b.entries union_count)
