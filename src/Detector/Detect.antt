-- ===== src/Detector/Detect.antt =====
-- interference_detector.c: `interference_detector_run_once`.
use cgroup_research.Prelude.{
  ℕ, suc, Bool, true, not, ◌&&◌, Option, none, some, List, [], ◌∷◌, length, take, ltb, ◌==◌,
  if◌then◌else◌,
}
use cgroup_research.Prelude.Word.{inc}
use cgroup_research.Prelude.Double.{Double, nought}
use cgroup_research.DramMapping.Mapping.{DramMapping, is_ready}
use cgroup_research.BankProfile.Profile.{is_ok, BankProfile, overlap_score}
use cgroup_research.BankProfile.Build.{Process, profile_reset, build}
use cgroup_research.AddrTranslate.Translate.{Descriptors}
use cgroup_research.Activity.Sampler.{Answers}
use cgroup_research.Controller.Types.{Candidate}
use cgroup_research.Detector.Types.{
  DetectorRc, ProcessState, DetectorConfig, DetectorError, DetectorStats, Active, update_stats,
  detector_stats_reset, stats_set_error, candidate_reset, compute_final_score,
}
use cgroup_research.Detector.Collect.{
  prepend, Collected, build_protected_aggregate_profile, collect_active_normal_candidates,
}

-- What the system answers in one run, by the index of each loop, and whether `calloc` succeeds.
pub record Surroundings : Type 0 where
  pub protected_profiles : ℕ → Process
  pub activity : ℕ → Answers
  pub normal_profiles : ℕ → Process
  pub allocates : Bool

-- What a run leaves.
pub record Detection (W : Type 0) : Type 0 where
  pub rc : DetectorRc
  pub processes : List ProcessState
  pub candidates : List (Candidate W)
  pub stats : Option DetectorStats
  pub descriptors : Descriptors

module _ {W : Type 0} ⦃d : Double W⦄ where
  -- What is written at `out[produced]`.
  unfoldable pub candidate_of : DetectorConfig W → Active W → W × ℕ → Candidate W
  candidate_of cfg a (overlap, common_pages) =
      let final_score = compute_final_score a.delta.total_score overlap in
      record candidate_reset {
        pid = a.pid;
        activity_score = a.delta.total_score;
        cpu_score = a.delta.cpu_score;
        fault_score = a.delta.fault_score;
        rss_score = a.delta.rss_score;
        overlap_score = overlap;
        common_pages = common_pages;
        final_score = final_score;
        active = true;
        should_throttle =
            d.le cfg.overlap_score_threshold overlap
            && d.le cfg.throttle_score_threshold final_score;
      }

  -- The two variables behind the output pointers, which start at 0.
  abbrev pub score_from : Option (W × ℕ) → W × ℕ
  score_from none = (nought, 0)
  score_from (some s) = s

  -- The body of the last loop: the candidate, or none where the profile or the score fails.
  unfoldable pub examine :
      Process
      → DramMapping
      → DetectorConfig W
      → BankProfile W
      → Active W
      → Option DetectorStats
      → Option (Candidate W) × Option DetectorStats
  unfolding candidate_of
  examine process mapping cfg aggregate a stats =
      let (built, profile) = build process a.pid mapping (some cfg.profile_config) profile_reset in
      let (scored, score) = overlap_score (some aggregate) (some profile) in
      let failed = λ (x : Option DetectorStats).
        update_stats (λ s. record s { profile_errors = inc s.profile_errors }) x in
      let counted =
        update_stats (λ s. record s { normal_profiles_built = inc s.normal_profiles_built })
          stats in
      if not (is_ok built)
      then (none, failed stats)
      else if not (is_ok scored)
      then (none, failed counted)
      else (some (candidate_of cfg a (score_from score)), counted)

  unfoldable pub examine_all :
      (ℕ → Process)
      → DramMapping
      → DetectorConfig W
      → BankProfile W
      → ℕ
      → List (Active W)
      → Option DetectorStats
      → List (Candidate W) × Option DetectorStats
  unfolding examine
  examine_all answers mapping cfg aggregate i [] stats = ([], stats)
  examine_all answers mapping cfg aggregate i (a ∷ active) stats =
      let (found, stats') = examine (answers i) mapping cfg aggregate a stats in
      let (rest, stats'') = examine_all answers mapping cfg aggregate (suc i) active stats' in
      (prepend found rest, stats'')

  -- How many of the active processes are examined.
  abbrev pub detector_limit : DetectorConfig W → ℕ → ℕ → ℕ
  detector_limit cfg out_cap active_count =
      let limit =
        if ltb 0 cfg.max_normal_candidates && ltb cfg.max_normal_candidates active_count
        then cfg.max_normal_candidates
        else active_count in
      if ltb out_cap limit then out_cap else limit

  stop : DetectorRc → List ProcessState → Option DetectorStats → Descriptors → Detection W
  stop rc processes stats ds = record {
    rc = rc;
    processes = processes;
    candidates = [];
    stats = stats;
    descriptors = ds;
  }

  -- From the active processes on.
  unfoldable pub detect_among :
      Surroundings
      → List ProcessState
      → DramMapping
      → DetectorConfig W
      → ℕ
      → BankProfile W
      → Option DetectorStats
      → Descriptors
      → Option (Collected W)
      → Detection W
  unfolding examine_all stop
  detect_among around processes mapping cfg out_cap aggregate stats ds none =
      stop DetectorRc.no_memory processes
        (stats_set_error DetectorRc.no_memory DetectorError.collect_failed stats) ds
  detect_among around processes mapping cfg out_cap aggregate stats ds (some found) =
      let limit = detector_limit cfg out_cap (length found.active) in
      let (out, stats') =
        examine_all around.normal_profiles mapping cfg aggregate 0 (take limit found.active)
          found.stats in
      record {
        rc = DetectorRc.ok;
        processes = found.processes;
        candidates = out;
        stats = update_stats (λ s. record s { output_candidates = length out }) stats';
        descriptors = found.descriptors;
      }

  -- From the profile of the protected processes on.
  unfoldable pub detect_with :
      (List (Active W) → List (Active W))
      → Surroundings
      → List ProcessState
      → DramMapping
      → DetectorConfig W
      → ℕ
      → Descriptors
      → DetectorRc × BankProfile W × Option DetectorStats
      → Detection W
  unfolding detect_among
  detect_with sort around processes mapping cfg out_cap ds (DetectorRc.ok, aggregate, stats) =
      detect_among around processes mapping cfg out_cap aggregate stats ds (
        collect_active_normal_candidates sort around.allocates around.activity processes cfg stats
          ds)
  detect_with sort around processes mapping cfg out_cap ds (rc, aggregate, stats) =
      stop rc processes (stats_set_error rc DetectorError.aggregate_failed stats) ds

  -- The pointers are no null pointers but for that of the statistics.
  unfoldable pub run_once :
      (List (Active W) → List (Active W))
      → Surroundings
      → List ProcessState
      → DramMapping
      → DetectorConfig W
      → ℕ
      → Option DetectorStats
      → Descriptors
      → Detection W
  unfolding detect_with stop
  run_once sort around processes mapping cfg out_cap stats ds =
      let fresh = update_stats (λ s. detector_stats_reset) stats in
      let counted = update_stats (λ s. record s { process_count = length processes }) fresh in
      if ltb 0 (length processes) && out_cap == 0
      then stop DetectorRc.invalid_arg processes fresh ds
      else if not (is_ready mapping)
      then stop DetectorRc.no_mapping processes
          (stats_set_error DetectorRc.no_mapping DetectorError.mapping_not_ready fresh) ds
      else detect_with sort around processes mapping cfg out_cap ds (
          build_protected_aggregate_profile around.protected_profiles processes mapping cfg counted)
