-- ===== src/Activity/Prefilter.antt =====
-- activity_prefilter.c: the eligible observations and the best of them.
use cgroup_research.Prelude.{
  ℕ, Bool, true, false, not, ◌&&◌, ◌||◌, List, [], ◌∷◌, Pid, positive, eq_ℤ, ltb, ◌==◌,
  if◌then◌else◌, length, take,
}
use cgroup_research.Prelude.Word.{inc}
use cgroup_research.Prelude.Double.{Double}
use cgroup_research.Activity.Delta.{Sample, Delta, count_of, less}

-- `enum activity_prefilter_status`
pub data PrefilterRc : Type 0 where
  ok invalid_arg no_space no_memory : PrefilterRc

-- `struct activity_prefilter_config`
pub record PrefilterConfig : Type 0 where
  pub max_candidates : ℕ
  pub min_rss_pages : ℕ

abbrev pub prefilter_config_default : PrefilterConfig
prefilter_config_default = record { max_candidates = 64; min_rss_pages = 1 }

-- `struct activity_prefilter_observation`
pub record Observation (W : Type 0) : Type 0 where
  pub pid : Pid
  pub sample : Sample
  pub delta : Delta W

-- `struct activity_prefilter_candidate`
pub record Screened (W : Type 0) : Type 0 where
  pub pid : Pid
  pub screening_score : W
  pub delta : Delta W

-- `struct activity_prefilter_stats`
pub record PrefilterStats : Type 0 where
  pub observations : ℕ
  pub valid_observations : ℕ
  pub excluded_zombie : ℕ
  pub excluded_small_rss : ℕ
  pub excluded_no_signal : ℕ
  pub eligible_candidates : ℕ
  pub selected_candidates : ℕ

abbrev pub prefilter_stats_reset : PrefilterStats
prefilter_stats_reset = record {
  observations = 0;
  valid_observations = 0;
  excluded_zombie = 0;
  excluded_small_rss = 0;
  excluded_no_signal = 0;
  eligible_candidates = 0;
  selected_candidates = 0;
}

-- `rss_pages <= 0 || (uint64_t)rss_pages < min_rss_pages`
abbrev pub has_small_rss : PrefilterConfig → Sample → Bool
has_small_rss cfg s = not (positive s.rss_pages) || ltb (count_of s.rss_pages) cfg.min_rss_pages

module _ {W : Type 0} where
  abbrev pub observation_is_valid : Observation W → Bool
  observation_is_valid obs =
      positive obs.pid
      && (obs.sample.valid
          && (obs.delta.valid && (eq_ℤ obs.sample.pid obs.pid && eq_ℤ obs.delta.pid obs.pid)))

  abbrev pub has_cheap_activity_signal : Observation W → Bool
  has_cheap_activity_signal obs =
      ltb 0 obs.delta.cpu_ticks_delta
      || (ltb 0 obs.delta.minflt_delta
          || (ltb 0 obs.delta.majflt_delta || (obs.sample.state == 82 || obs.sample.state == 68)))

  -- What is written through `eligible_out`; no pointer is null, and the result is ok.
  unfoldable pub is_eligible : PrefilterConfig → Observation W → Bool
  is_eligible cfg obs =
      if not (observation_is_valid obs)
      then false
      else if obs.sample.state == 90
      then false
      else if has_small_rss cfg obs.sample
      then false
      else if not (has_cheap_activity_signal obs)
      then false
      else true

  module _ ⦃d : Double W⦄ where
    abbrev pub max3 : W → W → W → W
    max3 a b c = let larger = if d.lt a b then b else a in if d.lt larger c then c else larger

    abbrev pub screened : Observation W → Screened W
    screened obs = record {
      pid = obs.pid;
      screening_score = max3 obs.delta.cpu_score obs.delta.fault_score obs.delta.rss_score;
      delta = obs.delta;
    }

    -- `compare_candidate_desc(a, b) <= 0`: `b` does not rank before `a`.
    unfoldable pub in_order : Screened W → Screened W → Bool
    in_order a b =
        if d.lt a.screening_score b.screening_score
        then false
        else if d.lt b.screening_score a.screening_score
        then true
        else not (less b.pid a.pid)

    -- The loop over the observations: the eligible ones, and the statistics.
    unfoldable pub collect :
        PrefilterConfig → List (Observation W) → PrefilterStats → List (Screened W) × PrefilterStats
    unfolding is_eligible
    collect cfg [] k = ([], k)
    collect cfg (obs ∷ rest) k =
        let seen = record k { valid_observations = inc k.valid_observations } in
        let skipped = collect cfg rest k in
        let zombie =
          collect cfg rest (record seen { excluded_zombie = inc seen.excluded_zombie }) in
        let small =
          collect cfg rest (record seen { excluded_small_rss = inc seen.excluded_small_rss }) in
        let silent =
          collect cfg rest (record seen { excluded_no_signal = inc seen.excluded_no_signal }) in
        let kept = collect cfg rest seen in
        if not (observation_is_valid obs)
        then skipped
        else if obs.sample.state == 90
        then zombie
        else if has_small_rss cfg obs.sample
        then small
        else if not (is_eligible cfg obs)
        then silent
        else (screened obs ∷ kept.0, kept.1)

    -- What is left to do with the sorted candidates; `cap` is the room in `out`.
    unfoldable pub select :
        PrefilterConfig
        → ℕ
        → List (Screened W)
        → PrefilterStats
        → PrefilterRc × List (Screened W) × PrefilterStats
    select cfg cap sorted k =
        let count = length sorted in
        let k' = record k { eligible_candidates = count } in
        let limit =
          if ltb 0 cfg.max_candidates && ltb cfg.max_candidates count
          then cfg.max_candidates
          else count in
        if ltb cap limit
        then (PrefilterRc.no_space, [], k')
        else (PrefilterRc.ok, take limit sorted, record k' { selected_candidates = limit })

    -- `sort` is the order that `qsort` gives, and `allocates` whether `calloc` does.
    unfoldable pub select_topk :
        (List (Screened W) → List (Screened W))
        → Bool
        → PrefilterConfig
        → ℕ
        → List (Observation W)
        → PrefilterRc × List (Screened W) × PrefilterStats
    unfolding select collect
    select_topk sort allocates cfg cap [] = (PrefilterRc.ok, [], prefilter_stats_reset)
    select_topk sort allocates cfg cap (obs ∷ rest) =
        let counted = record prefilter_stats_reset { observations = length (obs ∷ rest) } in
        let (eligible, k) = collect cfg (obs ∷ rest) counted in
        if not allocates
        then (PrefilterRc.no_memory, [], counted)
        else select cfg cap (sort eligible) k
