-- ===== src/Detector/Tests.antt =====
-- Runs of the detector, and its theorem at a concrete input.
use mathlib.Core.List.Perm
use cgroup_research.Prelude.{ℕ, true, false, some, List, [], ◌∷◌, pos, codes}
use cgroup_research.Prelude.Double.{fixed_point}
use cgroup_research.DramMapping.Mapping.{DramMapping}
use cgroup_research.BankProfile.Sampling.{Translation}
use cgroup_research.BankProfile.Build.{Process}
use cgroup_research.Activity.Delta.{Sample}
use cgroup_research.Activity.Sampler.{Answers, sample_reset}
use cgroup_research.Detector.Types.{
  Role, ProcessState, detector_stats_reset, detector_config_default,
}
use cgroup_research.Detector.Detect.{Surroundings, run_once}
use cgroup_research.Detector.Output.{Detected, run_once-Detected}
use cgroup_research.Prelude.{
  ◌≡◌, refl, ◌≤◌, ◌⊎◌, Pid, All, inl, inr, Bool-cases, arith, positive, eq_ℤ,
}
use cgroup_research.Cgroup.Tree.{eq_text}
use cgroup_research.Cgroup.Decimal.{print_pid}
use cgroup_research.DramMapping.Bits.{and_bits, or_bits, parity_bits}
use cgroup_research.DramMapping.Mapping.{
  is_ready, bank_class, bank_class_fast, class_from, parity64,
}
use cgroup_research.BankProfile.Profile.{
  merge, overlap_score, add_bank_class_count, add_to_entry, finalize, merge_entries, overlap_first,
  overlap_second, class_among, count_in,
}
use cgroup_research.BankProfile.Sampling.{region_is_selected, starts_with, sample_region}
use cgroup_research.BankProfile.Build.{build, sample_lines}
use cgroup_research.Activity.Delta.{compute_delta}
use cgroup_research.Activity.Stat.{
  find_first, find_last, skip_spaces, from, parse_stat_values, strtoll,
}
use cgroup_research.Activity.Sampler.{sample_now}
use cgroup_research.Controller.Types.{Rc}
use cgroup_research.Controller.Candidates.{Span, prevalidate_candidates}
use cgroup_research.Controller.Apply.{zeroed}
use cgroup_research.Detector.Collect.{
  build_protected_aggregate_profile, collect_active_normal_candidates,
}
use cgroup_research.Detector.Found.{times, is_observed}
use cgroup_research.Detector.Handover.{HasUnitScores, run_once-prevalidates}

-- Bits 6 and 13.
abbrev one_mask : DramMapping
one_mask = record { masks = 8256 ∷ []; mask_set_id = codes "one"; ready = true }

-- One anonymous region of two pages, whose pages lie where their addresses say.
abbrev process : Process
process = record {
  system_page_size = some 4096;
  maps =
      some (some (record { start = 4096; end = 12288; perms = codes "rw-p"; pathname = [] }) ∷ []);
  pagemap_opens = true;
  translate = λ va. Translation.translated va;
  maps_fail = false;
}

abbrev answers : Answers
answers = record {
  page_size = pos 4096;
  clock_ticks = pos 100;
  clock = some (2, 0);
  fopen = λ path. some (pos 5);
  line = some (codes "7 (a) b) R 1 1 1 0 -1 0 900 0 3 0 40 10 0 0 20 0 1 0 3 8192 512 1 2\n");
}

abbrev around : Surroundings
around = record {
  protected_profiles = λ i. process;
  activity = λ i. answers;
  normal_profiles = λ i. process;
  allocates = true;
}

abbrev earlier : Sample
earlier = record sample_reset {
  pid = pos 7;
  valid = true;
  timestamp_ns = 1000000000;
  clock_ticks_per_sec = pos 100;
  page_size = 4096;
  starttime_ticks = 3;
  rss_pages = pos 512;
}

abbrev processes : List ProcessState
processes =
    record {
      pid = pos 9;
      role = Role.protected;
      alive = true;
      has_activity_sample = false;
      activity_sample = sample_reset;
    }
    ∷ record {
      pid = pos 7;
      role = Role.normal;
      alive = true;
      has_activity_sample = true;
      activity_sample = earlier;
    }
    ∷ []

run_once-Detected_example : Detected {W = ℕ} detector_config_default 4 processes [] (
    run_once
      (λ xs. xs)
      around
      processes
      one_mask
      detector_config_default
      4
      (some detector_stats_reset)
      [])
run_once-Detected_example =
    run_once-Detected (λ xs. xs) around processes one_mask detector_config_default 4
      (some detector_stats_reset) [] (λ xs. Perm.refl xs)

-- One process can be found, and only once.
found_once : (pid : Pid) → times (is_observed pid) processes ≤ 1
found_once pid = elim (Bool-cases (eq_ℤ pid (pos 7))) [
  | inl e ↦ ground arith
  | inr e ↦ ground arith
]

scores :
    All HasUnitScores
      (run_once {W = ℕ}
        (λ xs. xs)
        around
        processes
        one_mask
        detector_config_default
        4
        (some detector_stats_reset)
        []).candidates
unfolding run_once build_protected_aggregate_profile collect_active_normal_candidates build merge
    overlap_score compute_delta sample_now is_ready positive eq_ℤ sample_lines region_is_selected
    eq_text starts_with sample_region bank_class add_bank_class_count add_to_entry finalize
    merge_entries print_pid find_first find_last skip_spaces from parse_stat_values strtoll parity64
    bank_class_fast class_from parity_bits and_bits or_bits overlap_second class_among overlap_first
    count_in
scores = (
  record {
    activity_finite = refl;
    overlap_finite = refl;
    final_finite = refl;
    activity_at_least = refl;
    activity_at_most = refl;
    overlap_at_least = refl;
    overlap_at_most = refl;
    final_at_least = refl;
    final_at_most = refl;
  },
  tt,
)

run_once-prevalidates_example :
    let cs =
      (run_once {W = ℕ}
        (λ xs. xs)
        around
        processes
        one_mask
        detector_config_default
        4
        (some detector_stats_reset)
        []).candidates in
    (prevalidate_candidates zeroed (Span.items cs) ≡ Rc.ok)
    ⊎ (prevalidate_candidates zeroed (Span.items cs) ≡ Rc.no_space)
run_once-prevalidates_example =
    run_once-prevalidates (λ xs. xs) around processes one_mask detector_config_default 4
      (some detector_stats_reset) [] zeroed (λ xs. Perm.refl xs) found_once scores
