-- ===== src/Detector/Examination.antt =====
-- What the detector makes of the active processes that it examines.
use cgroup_research.Prelude.{
  ℕ, zero, suc, ◌≤◌, ◌≡◌, refl, inl, inr, Bool, true, false, not, ◌&&◌, Option, none, some, List,
  [], ◌∷◌, All, Pid, eq_ℤ, positive, length, take, min, arith, Bool-cases,
}
use cgroup_research.Prelude.Double.{Double}
use cgroup_research.DramMapping.Mapping.{DramMapping}
use cgroup_research.BankProfile.Profile.{is_ok, BankProfile, overlap_score}
use cgroup_research.BankProfile.Sampling.{SampleConfig}
use cgroup_research.BankProfile.Build.{Process, profile_reset, build}
use cgroup_research.Controller.Types.{Candidate}
use cgroup_research.Detector.Types.{DetectorConfig, DetectorStats, Active, compute_final_score}
use cgroup_research.Detector.Collect.{prepend}
use cgroup_research.Detector.Detect.{candidate_of, examine, examine_all}
use cgroup_research.Detector.Found.{times, has_pid, is_worthy}

module _ {W : Type 0} where
  abbrev pub is_candidate_of : Pid → Candidate W → Bool
  is_candidate_of pid c = eq_ℤ pid c.pid

  pub length-take : (n : ℕ) (xs : List (Active W)) → length (take n xs) ≡ min n (length xs)
  length-take zero xs = omega arith
  length-take (suc n) [] = omega arith
  length-take (suc n) (x ∷ xs) = omega (arith, length-take n xs)

module _ {W : Type 0} ⦃d : Double W⦄ where
  -- A candidate that the thresholds of the configuration justify.
  pub record Decided (cfg : DetectorConfig W) (c : Candidate W) : Type 0 where
    pub pid_there : positive c.pid ≡ true
    pub is_active : c.active ≡ true
    pub activity_enough : d.lt c.activity_score cfg.activity_score_threshold ≡ false
    pub final : c.final_score ≡ compute_final_score c.activity_score c.overlap_score
    pub throttle : c.should_throttle ≡ (
        d.le cfg.overlap_score_threshold c.overlap_score
        && d.le cfg.throttle_score_threshold c.final_score)

  build-positive :
      (process : Process) (pid : Pid) (mapping : DramMapping) (cfg : Option SampleConfig)
      (out : BankProfile W)
      → is_ok (build process pid mapping cfg out).0 ≡ true
      → positive pid ≡ true
  unfolding build
  build-positive process pid mapping cfg out h = elim (Bool-cases (positive pid)) [
    | inl p ↦ p
    | inr n ↦ cc (rw n at h)
  ]

  -- What the examination of one process gives.
  pub data Examined (cfg : DetectorConfig W) (a : Active W) : Option (Candidate W) → Type 0 where
    dropped : Examined cfg a none
    produced : (c : Candidate W) → c.pid ≡ a.pid → Decided cfg c → Examined cfg a (some c)

  examine-Examined :
      (process : Process) (mapping : DramMapping) (cfg : DetectorConfig W)
      (aggregate : BankProfile W) (a : Active W) (stats : Option DetectorStats)
      → is_worthy cfg a ≡ true
      → Examined cfg a (examine process mapping cfg aggregate a stats).0
  unfolding examine candidate_of
  examine-Examined process mapping cfg aggregate a stats w =
      let (built, profile) =
        build {W = W} process a.pid mapping (some cfg.profile_config) profile_reset in
      let (scored, score) = overlap_score (some aggregate) (some profile) in
      elim (Bool-cases (is_ok built)) [
        | inr n ↦ rw n Examined.dropped
        | inl b ↦ elim (Bool-cases (is_ok scored)) [
          | inr n ↦ rw (b, n) Examined.dropped
          | inl s ↦
              rw (b, s)
                (Examined.produced _ refl (record {
                  pid_there = build-positive process a.pid mapping _ _ b;
                  is_active = refl;
                  activity_enough = ground arith;
                  final = refl;
                  throttle = refl;
                }))
        ]
      ]

  -- What the examination of a list gives.
  pub record Produced (cfg : DetectorConfig W) (active : List (Active W)) (out : List (Candidate W))
      : Type 0 where
    pub number : length out ≤ length active
    pub times_produced : (pid : Pid) → times (is_candidate_of pid) out ≤ times (has_pid pid) active
    pub decided : All (Decided cfg) out

  prepend-Produced :
      (cfg : DetectorConfig W) (a : Active W) (active : List (Active W)) (out : List (Candidate W))
      {o : Option (Candidate W)}
      → Examined cfg a o
      → Produced cfg active out
      → Produced cfg (a ∷ active) (prepend o out)
  prepend-Produced cfg a active out Examined.dropped h = record {
    number = omega (arith, h.number);
    times_produced = λ pid. ground (arith, h.times_produced pid);
    decided = h.decided;
  }
  prepend-Produced cfg a active out (Examined.produced c e k) h = record {
    number = omega (arith, h.number);
    times_produced = λ pid. simp e (ground (arith, h.times_produced pid));
    decided = (k, h.decided);
  }

  pub examine_all-Produced :
      (answers : ℕ → Process) (mapping : DramMapping) (cfg : DetectorConfig W)
      (aggregate : BankProfile W) (i : ℕ) (active : List (Active W)) (stats : Option DetectorStats)
      → times (λ a. not (is_worthy cfg a)) active ≡ 0
      → Produced cfg active (examine_all answers mapping cfg aggregate i active stats).0
  unfolding examine_all
  examine_all-Produced answers mapping cfg aggregate i [] stats w = record {
    number = omega arith;
    times_produced = λ pid. omega arith;
    decided = tt;
  }
  examine_all-Produced answers mapping cfg aggregate i (a ∷ active) stats w =
      let (found, stats') = examine (answers i) mapping cfg aggregate a stats in
      prepend-Produced cfg a active _
        (examine-Examined (answers i) mapping cfg aggregate a stats (ground arith))
        (examine_all-Produced answers mapping cfg aggregate (suc i) active stats' (ground arith))
