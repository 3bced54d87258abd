-- ===== src/Detector/Handover.antt =====
-- The candidates of the detector at the checks of the controller.
use mathlib.Core.List.{Perm}
use cgroup_research.Prelude.{
  ℕ, ◌+◌, ◌≤◌, ◌≡◌, ◌⊎◌, refl, inl, inr, true, false, Option, some, List, [], ◌∷◌, All, Pid, eq_ℤ,
  eq_ℤ_refl, length, ltb, arith, Bool-cases,
}
use cgroup_research.Prelude.Word.{sub_u64}
use cgroup_research.Prelude.Double.{Double, nought, one}
use cgroup_research.DramMapping.Mapping.{DramMapping}
use cgroup_research.AddrTranslate.Translate.{Descriptors}
use cgroup_research.Controller.Types.{Rc, Candidate, Record as ThrottleRecord, Controller}
use cgroup_research.Controller.Candidates.{
  Span, pid_among, candidate_valid, count_new, prevalidate_candidates,
}
use cgroup_research.Detector.Types.{ProcessState, DetectorConfig, DetectorStats, Active}
use cgroup_research.Detector.Detect.{Surroundings, Detection, run_once}
use cgroup_research.Detector.Found.{times, is_observed}
use cgroup_research.Detector.Examination.{is_candidate_of, Decided}
use cgroup_research.Detector.Output.{Detected, run_once-Detected}

module _ {W : Type 0} where
  pid_among-times :
      (pid : Pid) (cs : List (Candidate W))
      → times (is_candidate_of pid) cs ≡ 0
      → pid_among pid cs ≡ false
  unfolding pid_among
  pid_among-times pid [] h = refl
  pid_among-times pid (c ∷ cs) h = elim (Bool-cases (eq_ℤ pid c.pid)) [
    | inl e ↦ absurd (ground arith)
    | inr n ↦ rw n (pid_among-times pid cs (ground arith))
  ]

module _ {W : Type 0} ⦃d : Double W⦄ where
  -- The three scores that the controller looks at are numbers between 0 and 1.
  pub record HasUnitScores (c : Candidate W) : Type 0 where
    pub activity_finite : d.is_finite c.activity_score ≡ true
    pub overlap_finite : d.is_finite c.overlap_score ≡ true
    pub final_finite : d.is_finite c.final_score ≡ true
    pub activity_at_least : d.lt c.activity_score nought ≡ false
    pub activity_at_most : d.lt one c.activity_score ≡ false
    pub overlap_at_least : d.lt c.overlap_score nought ≡ false
    pub overlap_at_most : d.lt one c.overlap_score ≡ false
    pub final_at_least : d.lt c.final_score nought ≡ false
    pub final_at_most : d.lt one c.final_score ≡ false

  Decided-valid :
      (cfg : DetectorConfig W) (c : Candidate W)
      → Decided cfg c
      → HasUnitScores c
      → candidate_valid c ≡ true
  unfolding candidate_valid
  Decided-valid cfg c h k = simp (
    h.pid_there, k.activity_finite, k.overlap_finite, k.final_finite, k.activity_at_least,
    k.activity_at_most, k.overlap_at_least, k.overlap_at_most, k.final_at_least, k.final_at_most,
  )

  -- Candidates of which no pid comes twice, and each is decided, are counted without an error.
  count_new-succeeds :
      (cfg : DetectorConfig W) (rs : List (ThrottleRecord W)) (earlier : List (Candidate W)) (n : ℕ)
      (cs : List (Candidate W))
      → All (Decided cfg) cs
      → All HasUnitScores cs
      → ((pid : Pid) → times (is_candidate_of pid) cs + times (is_candidate_of pid) earlier ≤ 1)
      → (k : ℕ) × (count_new rs earlier n cs ≡ some k)
  unfolding count_new
  count_new-succeeds cfg rs earlier n [] h u t = (n, refl)
  count_new-succeeds cfg rs earlier n (c ∷ cs) h u t =
      let same = eq_ℤ_refl c.pid in
      let here = t c.pid in
      let fresh : pid_among c.pid earlier ≡ false = pid_among-times c.pid earlier (ground arith) in
      rw (Decided-valid cfg c h.0 u.0, fresh)
        (count_new-succeeds cfg rs (c ∷ earlier) _ cs h.1 u.1 (λ pid.
          let once = t pid in
          elim (Bool-cases (eq_ℤ pid c.pid)) [ inl e ↦ ground arith | inr e ↦ ground arith ]))

  taken_or_full :
      (ctl : Controller W) (cs : List (Candidate W)) (k : ℕ)
      → count_new ctl.records [] 0 cs ≡ some k
      → (prevalidate_candidates ctl (Span.items cs) ≡ Rc.ok)
        ⊎ (prevalidate_candidates ctl (Span.items cs) ≡ Rc.no_space)
  unfolding prevalidate_candidates
  taken_or_full ctl cs k e =
      elim (Bool-cases (ltb (sub_u64 ctl.record_cap (length ctl.records)) k)) [
        | inl full ↦ rw (e, full) (inr refl)
        | inr room ↦ rw (e, room) (inl refl)
      ]

  Detected-prevalidates :
      (cfg : DetectorConfig W) (out_cap : ℕ) (processes : List ProcessState) (ds : Descriptors)
      (ctl : Controller W) {r : Detection W}
      → Detected cfg out_cap processes ds r
      → ((pid : Pid) → times (is_observed pid) processes ≤ 1)
      → All HasUnitScores r.candidates
      → (prevalidate_candidates ctl (Span.items r.candidates) ≡ Rc.ok)
        ⊎ (prevalidate_candidates ctl (Span.items r.candidates) ≡ Rc.no_space)
  Detected-prevalidates cfg out_cap processes ds ctl (Detected.failed rc stats n) once u =
      let (k, e) = count_new-succeeds cfg ctl.records [] 0 [] tt tt (λ pid. omega arith) in
      taken_or_full ctl [] k e
  Detected-prevalidates cfg out_cap processes ds ctl
        (Detected.detected r ok room most found decided pids roles) once u =
      let (k, e) =
        count_new-succeeds cfg ctl.records [] 0 r.candidates decided u
          (λ pid. omega (arith, found pid, once pid)) in
      taken_or_full ctl r.candidates k e

  -- The controller refuses no list that the detector puts out but for a lack of room for new records,
  -- where no pid is found twice among the processes and the scores are numbers between 0 and 1: every
  -- candidate has a positive pid, and no pid comes twice in the list.
  pub run_once-prevalidates :
      (sort : List (Active W) → List (Active W)) (around : Surroundings)
      (processes : List ProcessState) (mapping : DramMapping) (cfg : DetectorConfig W) (out_cap : ℕ)
      (stats : Option DetectorStats) (ds : Descriptors) (ctl : Controller W)
      → ((xs : List (Active W)) → Perm (sort xs) xs)
      → ((pid : Pid) → times (is_observed pid) processes ≤ 1)
      → let cs = (run_once sort around processes mapping cfg out_cap stats ds).candidates in
        All HasUnitScores cs
        → (prevalidate_candidates ctl (Span.items cs) ≡ Rc.ok)
          ⊎ (prevalidate_candidates ctl (Span.items cs) ≡ Rc.no_space)
  run_once-prevalidates sort around processes mapping cfg out_cap stats ds ctl p once u =
      Detected-prevalidates cfg out_cap processes ds ctl
        (run_once-Detected sort around processes mapping cfg out_cap stats ds p) once u
