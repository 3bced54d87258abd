-- ===== src/Detector/Collect.antt =====
-- interference_detector.c: the profile of the protected processes, and the normal processes that are
-- active.
use cgroup_research.Prelude.{
  ℕ, suc, Bool, true, false, not, ◌||◌, Option, none, some, List, [], ◌∷◌, length, ◌==◌,
  if◌then◌else◌,
}
use cgroup_research.Prelude.Word.{inc}
use cgroup_research.Prelude.Double.{Double}
use cgroup_research.DramMapping.Mapping.{DramMapping}
use cgroup_research.BankProfile.Profile.{is_ok, BankProfile, merge}
use cgroup_research.BankProfile.Build.{Process, profile_reset, build}
use cgroup_research.AddrTranslate.Translate.{Descriptors}
use cgroup_research.Activity.Delta.{ActivityRc, Sample, compute_delta}
use cgroup_research.Activity.Sampler.{Answers, sample_reset, sample_now}
use cgroup_research.Detector.Types.{
  DetectorRc, is_normal, ProcessState, DetectorConfig, DetectorStats, Active, update_stats,
}

-- `rc == PROC_ACTIVITY_OK`
abbrev pub activity_is_ok : ActivityRc → Bool
activity_is_ok ActivityRc.ok = true
activity_is_ok _ = false

abbrev pub is_reused : ActivityRc → Bool
is_reused ActivityRc.pid_reused = true
is_reused _ = false

module _ {W : Type 0} ⦃d : Double W⦄ where
  -- The body of the loop, for a protected process that is alive; `false` is the return with an error.
  unfoldable pub aggregate_process :
      Process
      → DramMapping
      → DetectorConfig W
      → ProcessState
      → BankProfile W
      → Option DetectorStats
      → Bool × BankProfile W × Option DetectorStats
  aggregate_process process mapping cfg p aggregate stats =
      let (built, profile) = build process p.pid mapping (some cfg.profile_config) profile_reset in
      let (merged, aggregate') = merge aggregate profile in
      let seen =
        update_stats (λ s. record s { protected_processes = inc s.protected_processes }) stats in
      let failed = update_stats (λ s. record s { profile_errors = inc s.profile_errors }) seen in
      if not (is_ok built)
      then (true, aggregate, failed)
      else if not (is_ok merged)
      then (false, aggregate', failed)
      else (
        true,
        aggregate',
        update_stats (λ s. record s { protected_profiles_built = inc s.protected_profiles_built })
            seen,
      )

  -- The loop: `answers i` is what the system answers for the element i of the array.
  unfoldable pub aggregate_all :
      (ℕ → Process)
      → DramMapping
      → DetectorConfig W
      → ℕ
      → List ProcessState
      → BankProfile W
      → Option DetectorStats
      → Bool × BankProfile W × Option DetectorStats
  unfolding aggregate_process
  aggregate_all answers mapping cfg i [] aggregate stats = (true, aggregate, stats)
  aggregate_all answers mapping cfg i (p ∷ ps) aggregate stats =
      let (going, aggregate', stats') =
        aggregate_process (answers i) mapping cfg p aggregate stats in
      let skipped = aggregate_all answers mapping cfg (suc i) ps aggregate stats in
      let rest = aggregate_all answers mapping cfg (suc i) ps aggregate' stats' in
      if not p.alive || is_normal p.role
      then skipped
      else if going
      then rest
      else (false, aggregate', stats')

  unfoldable pub build_protected_aggregate_profile :
      (ℕ → Process)
      → List ProcessState
      → DramMapping
      → DetectorConfig W
      → Option DetectorStats
      → DetectorRc × BankProfile W × Option DetectorStats
  unfolding aggregate_all
  build_protected_aggregate_profile answers processes mapping cfg stats =
      let (going, aggregate, stats') =
        aggregate_all answers mapping cfg 0 processes profile_reset stats in
      if not going
      then (DetectorRc.profile, aggregate, stats')
      else if length aggregate.entries == 0
      then (DetectorRc.no_protected_profile, aggregate, stats')
      else (DetectorRc.ok, aggregate, stats')

  -- The body of the loop, for a normal process that is alive, from the new sample on.
  unfoldable pub collect_sampled :
      DetectorConfig W
      → ProcessState
      → Option DetectorStats
      → ActivityRc
      → Sample
      → ProcessState × Option (Active W) × Option DetectorStats
  collect_sampled cfg p stats sampled now =
      let (compared, delta) = compute_delta p.activity_sample now cfg.activity_config in
      let seen = update_stats (λ s. record s { normal_processes = inc s.normal_processes }) stats in
      let failed = λ (x : Option DetectorStats).
        update_stats (λ s. record s { activity_errors = inc s.activity_errors }) x in
      let counted =
        update_stats (λ s. record s { activity_samples = inc s.activity_samples }) seen in
      let kept = record p { activity_sample = now; has_activity_sample = true } in
      if not (activity_is_ok sampled)
      then (record p { alive = false; has_activity_sample = false }, none, failed seen)
      else if not p.has_activity_sample
      then (kept, none, counted)
      else if not (activity_is_ok compared)
      then (record kept { has_activity_sample = not (is_reused compared) }, none, failed counted)
      else if not delta.active || d.lt delta.total_score cfg.activity_score_threshold
      then (kept, none, counted)
      else (kept, some (record { pid = p.pid; delta = delta }), counted)

abbrev pub prepend : {A : Type 0} → Option A → List A → List A
prepend none xs = xs
prepend (some x) xs = x ∷ xs

-- What a loop over the processes leaves.
pub record Collected (W : Type 0) : Type 0 where
  pub processes : List ProcessState
  pub active : List (Active W)
  pub stats : Option DetectorStats
  pub descriptors : Descriptors

module _ {W : Type 0} ⦃d : Double W⦄ where
  -- The loop.
  unfoldable pub collect_all :
      (ℕ → Answers)
      → DetectorConfig W
      → ℕ
      → List ProcessState
      → Option DetectorStats
      → Descriptors
      → Collected W
  unfolding collect_sampled
  collect_all answers cfg i [] stats ds = record {
    processes = [];
    active = [];
    stats = stats;
    descriptors = ds;
  }
  collect_all answers cfg i (p ∷ ps) stats ds =
      let (sampled, now, ds') = sample_now (answers i) p.pid sample_reset ds in
      let (p', found, stats') = collect_sampled cfg p stats sampled now in
      let skipped = collect_all answers cfg (suc i) ps stats ds in
      let rest = collect_all answers cfg (suc i) ps stats' ds' in
      if not p.alive || not (is_normal p.role)
      then record skipped { processes = p ∷ skipped.processes }
      else record rest { processes = p' ∷ rest.processes; active = prepend found rest.active }

  -- `none` is INTERFERENCE_DETECTOR_ERR_NO_MEMORY; `sort` is `qsort` with the order of the source.
  unfoldable pub collect_active_normal_candidates :
      (List (Active W) → List (Active W))
      → Bool
      → (ℕ → Answers)
      → List ProcessState
      → DetectorConfig W
      → Option DetectorStats
      → Descriptors
      → Option (Collected W)
  unfolding collect_all
  collect_active_normal_candidates sort allocates answers processes cfg stats ds =
      let found = collect_all answers cfg 0 processes stats ds in
      if not allocates
      then none
      else some (record found {
        active = sort found.active;
        stats =
            update_stats (λ s. record s { active_normal_candidates = length found.active })
              found.stats;
      })
