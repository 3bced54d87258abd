-- ===== src/Detector/Output.antt =====
-- What a run of the detector puts out.
use mathlib.Core.List.{Perm}
use cgroup_research.Prelude.{
  ℕ, ◌≤◌, ◌<◌, ◌≡◌, refl, inl, inr, not, ◌&&◌, Option, some, List, [], map, All, Pid, length, take,
  ltb, ◌==◌, arith, Bool-cases,
}
use cgroup_research.Prelude.Double.{Double}
use cgroup_research.DramMapping.Mapping.{DramMapping, is_ready}
use cgroup_research.BankProfile.Profile.{BankProfile}
use cgroup_research.AddrTranslate.Translate.{Descriptors}
use cgroup_research.Detector.Types.{DetectorRc, ProcessState, DetectorConfig, DetectorStats, Active}
use cgroup_research.Detector.Collect.{Collected, collect_active_normal_candidates}
use cgroup_research.Detector.Detect.{
  Surroundings, Detection, detector_limit, detect_among, detect_with, run_once,
}
use cgroup_research.Detector.Found.{
  times, is_observed, has_pid, is_worthy, times-sort, times-take, Gathered, collect_all-Gathered,
}
use cgroup_research.Detector.Examination.{
  is_candidate_of, length-take, Decided, examine_all-Produced,
}

module _ {W : Type 0} ⦃d : Double W⦄ where
  -- The ways of a run.
  pub data Detected (cfg : DetectorConfig W) (out_cap : ℕ) (processes : List ProcessState)
      (ds : Descriptors) : Detection W → Type 0 where
    failed :
        (rc : DetectorRc) (stats : Option DetectorStats)
        → (rc ≡ DetectorRc.ok → ⊥)
        → Detected cfg out_cap processes ds (record {
          rc = rc;
          processes = processes;
          candidates = [];
          stats = stats;
          descriptors = ds;
        })
    detected :
        (r : Detection W)
        → r.rc ≡ DetectorRc.ok
        → length r.candidates ≤ out_cap
        → (0 < cfg.max_normal_candidates → length r.candidates ≤ cfg.max_normal_candidates)
        → ((pid : Pid)
            → times (is_candidate_of pid) r.candidates ≤ times (is_observed pid) processes)
        → All (Decided cfg) r.candidates
        → map (λ p. p.pid) r.processes ≡ map (λ p. p.pid) processes
        → map (λ p. p.role) r.processes ≡ map (λ p. p.role) processes
        → Detected cfg out_cap processes ds r

  detect_among-Detected :
      (around : Surroundings) (processes : List ProcessState) (mapping : DramMapping)
      (cfg : DetectorConfig W) (out_cap : ℕ) (aggregate : BankProfile W)
      (stats : Option DetectorStats) (ds : Descriptors) (c : Collected W) (sorted : List (Active W))
      (counted : Option DetectorStats)
      → Gathered cfg processes c
      → Perm sorted c.active
      → Detected cfg out_cap processes ds (
          detect_among around processes mapping cfg out_cap aggregate stats ds
            (some (record c { active = sorted; stats = counted })))
  unfolding detect_among
  detect_among-Detected around processes mapping cfg out_cap aggregate stats ds c sorted counted g
        p =
      let limit = detector_limit cfg out_cap (length sorted) in
      let taken = take limit sorted in
      let unworthy : times (λ a. not (is_worthy cfg a)) taken ≡ 0 = omega (
        arith,
        times-take (λ a. not (is_worthy cfg a)) limit sorted,
        times-sort (λ a. not (is_worthy cfg a)) p,
        g.worthy,
      ) in
      let h =
        examine_all-Produced around.normal_profiles mapping cfg aggregate 0 taken counted
          unworthy in
      let number = length-take limit sorted in
      Detected.detected _ refl (ground (arith, h.number, number))
        (λ m. ground (arith, h.number, number))
        (λ pid. omega (
          arith,
          h.times_produced pid,
          times-take (has_pid pid) limit sorted,
          times-sort (has_pid pid) p,
          g.times_found pid,
        ))
        h.decided g.same_pids g.same_roles

  detect_with-Detected :
      (sort : List (Active W) → List (Active W)) (around : Surroundings)
      (processes : List ProcessState) (mapping : DramMapping) (cfg : DetectorConfig W) (out_cap : ℕ)
      (ds : Descriptors) (r : DetectorRc × BankProfile W × Option DetectorStats)
      → ((xs : List (Active W)) → Perm (sort xs) xs)
      → Detected cfg out_cap processes ds
          (detect_with sort around processes mapping cfg out_cap ds r)
  unfolding detect_with collect_active_normal_candidates detect_among
  detect_with-Detected sort around processes mapping cfg out_cap ds
        (DetectorRc.ok, aggregate, stats) p =
      elim (Bool-cases around.allocates) [
        | inr n ↦ rw n (Detected.failed DetectorRc.no_memory _ (λ h. cc))
        | inl a ↦ rw a (
            detect_among-Detected around processes mapping cfg out_cap aggregate stats ds _ _ _
              (collect_all-Gathered around.activity cfg 0 processes stats ds) (p _))
      ]
  detect_with-Detected sort around processes mapping cfg out_cap ds (DetectorRc.invalid_arg, a, s)
        p =
      Detected.failed DetectorRc.invalid_arg _ (λ h. cc)
  detect_with-Detected sort around processes mapping cfg out_cap ds (DetectorRc.no_mapping, a, s)
        p =
      Detected.failed DetectorRc.no_mapping _ (λ h. cc)
  detect_with-Detected sort around processes mapping cfg out_cap ds (DetectorRc.no_memory, a, s) p =
      Detected.failed DetectorRc.no_memory _ (λ h. cc)
  detect_with-Detected sort around processes mapping cfg out_cap ds
        (DetectorRc.no_protected_profile, a, s) p =
      Detected.failed DetectorRc.no_protected_profile _ (λ h. cc)
  detect_with-Detected sort around processes mapping cfg out_cap ds (DetectorRc.profile, a, s) p =
      Detected.failed DetectorRc.profile _ (λ h. cc)
  detect_with-Detected sort around processes mapping cfg out_cap ds (DetectorRc.activity, a, s) p =
      Detected.failed DetectorRc.activity _ (λ h. cc)

  -- A run fails, puts out nothing and leaves the processes and the descriptors as they were, or it
  -- puts out candidates, where `qsort` permutes what it is given. These fit in the buffer, and are no
  -- more than the configuration allows where it sets a limit. No pid is put out more often than there
  -- are processes with it that are alive, normal and sampled before, so that a pid of protected processes
  -- only is no candidate. No candidate is below the threshold of the activity; each has the product of the two clamped
  -- scores as its final score, and is to be throttled exactly where the overlap and the final score
  -- reach their thresholds. The pids and roles of the processes stay.
  pub run_once-Detected :
      (sort : List (Active W) → List (Active W)) (around : Surroundings)
      (processes : List ProcessState) (mapping : DramMapping) (cfg : DetectorConfig W) (out_cap : ℕ)
      (stats : Option DetectorStats) (ds : Descriptors)
      → ((xs : List (Active W)) → Perm (sort xs) xs)
      → Detected cfg out_cap processes ds
          (run_once sort around processes mapping cfg out_cap stats ds)
  unfolding run_once
  run_once-Detected sort around processes mapping cfg out_cap stats ds p =
      elim (Bool-cases (ltb 0 (length processes) && out_cap == 0)) [
        | inl e ↦ rw e (Detected.failed DetectorRc.invalid_arg _ (λ h. cc))
        | inr n ↦ elim (Bool-cases (is_ready mapping)) [
          | inr u ↦ rw (n, u) (Detected.failed DetectorRc.no_mapping _ (λ h. cc))
          | inl r ↦
              rw (n, r) (detect_with-Detected sort around processes mapping cfg out_cap ds _ p)
        ]
      ]
