-- ===== src/BankProfile/Tests.antt =====
-- Runs of the bank profile, and its theorems at concrete inputs.
use cgroup_research.Prelude.{ℕ, ◌≡◌, true, codes, refl, inr, some, [], ◌∷◌, pos, arith}
use cgroup_research.Prelude.Double.{fixed_point}
use cgroup_research.BankProfile.Profile.{
  ProfileRc, ProfileError, Counters, BankProfile, count_in, class_among, overlap_first,
  overlap_second, overlapped, overlap_score, merge,
}
use cgroup_research.DramMapping.Mapping.{DramMapping}
use cgroup_research.BankProfile.Sampling.{Region, Translation, sample_config_default, sample_region}
use cgroup_research.BankProfile.Accounting.{Sampled, sample_region-Sampled}
use cgroup_research.BankProfile.Overlap.{overlap_score-sym, overlap_score-Compared, Compared}
use cgroup_research.BankProfile.Merge.{Merged, merge-Merged}

abbrev no_counters : Counters
no_counters = record {
  regions_seen = 0;
  regions_selected = 0;
  pages_seen = 0;
  pages_considered = 0;
  pages_sampled = 0;
  pages_translated = 0;
  pages_skipped_not_present = 0;
  pages_skipped_swapped = 0;
  pages_skipped_pfn_unavailable = 0;
  pages_skipped_translation_error = 0;
  pages_skipped_mapping_error = 0;
}

-- Three pages of class 5 and one of class 9.
abbrev first : BankProfile ℕ
first = record {
  pid = pos 7;
  page_size = 4096;
  counters = no_counters;
  entries =
      record { bank_class = 5; page_count = 3; byte_count = 12288 }
      ∷ record { bank_class = 9; page_count = 1; byte_count = 4096 }
      ∷ [];
  dominant_bank_class = 5;
  dominant_page_count = 3;
  dominant_fraction = 7500;
  error_message = ProfileError.empty;
}

-- Two pages of class 5 and two of class 1.
abbrev second : BankProfile ℕ
second = record first {
  pid = pos 8;
  entries =
      record { bank_class = 5; page_count = 2; byte_count = 8192 }
      ∷ record { bank_class = 1; page_count = 2; byte_count = 8192 }
      ∷ [];
}

-- Two pages in common of six.
scores : overlap_score (some first) (some second) ≡ (ProfileRc.ok, some (3333, 2))
unfolding overlap_score overlapped overlap_first overlap_second count_in class_among
scores = refl

overlap_score-sym_example :
    overlap_score (some first) (some second) ≡ overlap_score (some second) (some first)
overlap_score-sym_example = overlap_score-sym first second (record {
  first_distinct = ground arith;
  second_distinct = ground arith;
  countable = omega arith;
})

overlap_score-Compared_example :
    Compared first.entries second.entries (overlap_score (some first) (some second))
overlap_score-Compared_example =
    overlap_score-Compared first second
      (record {
        first_distinct = ground arith;
        second_distinct = ground arith;
        countable = omega arith;
      })
      (omega arith) (omega arith)

merge-Merged_example : Merged first.entries second.entries (merge first second)
merge-Merged_example =
    merge-Merged first second (record { fits = omega arith; apart = ground arith }) (ground arith)
      (omega arith) (inr refl) (omega arith) (omega arith)

abbrev heap : Region
heap = record { start = 4096; end = 20480; perms = codes "rw-p"; pathname = codes "[heap]" }

abbrev one_mask : DramMapping
one_mask = record { masks = 8256 ∷ []; mask_set_id = codes "one"; ready = true }

sample_region-Sampled_example :
    Sampled
      (λ va. Translation.translated va)
      one_mask
      sample_config_default
      100
      first
      (sample_region (λ va. Translation.translated va) one_mask sample_config_default heap first).1
sample_region-Sampled_example =
    sample_region-Sampled (λ va. Translation.translated va) one_mask sample_config_default heap 100
      first (record { sampled = refl; explained = refl; room = omega arith })
