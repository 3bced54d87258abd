-- ===== src/Detector/Types.antt =====
-- The data of interference_detector.h, and the operations that set it to its defaults.
use cgroup_research.Prelude.{ℕ, Bool, true, false, not, Option, none, some, Pid, pos, if◌then◌else◌}
use cgroup_research.Prelude.Double.{Double, nought}
use cgroup_research.Activity.Delta.{
  Sample, ActivityConfig, Delta, activity_config_default, clamp01, less,
}
use cgroup_research.Activity.Sampler.{sample_reset}
use cgroup_research.BankProfile.Sampling.{SampleConfig, sample_config_default}
use cgroup_research.Controller.Types.{Candidate}

-- `enum interference_detector_rc`
pub data DetectorRc : Type 0 where
  ok invalid_arg no_mapping no_memory no_protected_profile profile activity : DetectorRc

-- `enum interference_process_role`
pub data Role : Type 0 where
  normal protected : Role

abbrev pub is_normal : Role → Bool
is_normal Role.normal = true
is_normal Role.protected = false

-- `struct interference_process_state`
pub record ProcessState : Type 0 where
  pub pid : Pid
  pub role : Role
  pub alive : Bool
  pub has_activity_sample : Bool
  pub activity_sample : Sample

-- `struct interference_detector_config`
pub record DetectorConfig (W : Type 0) : Type 0 where
  pub max_normal_candidates : ℕ
  pub activity_score_threshold : W
  pub overlap_score_threshold : W
  pub throttle_score_threshold : W
  pub activity_config : ActivityConfig W
  pub profile_config : SampleConfig

-- The texts that are written into `last_error_reason`.
pub data DetectorError : Type 0 where
  nothing mapping_not_ready aggregate_failed collect_failed : DetectorError

-- `struct interference_detector_stats`
pub record DetectorStats : Type 0 where
  pub process_count : ℕ
  pub protected_processes : ℕ
  pub normal_processes : ℕ
  pub protected_profiles_built : ℕ
  pub activity_samples : ℕ
  pub active_normal_candidates : ℕ
  pub normal_profiles_built : ℕ
  pub output_candidates : ℕ
  pub activity_errors : ℕ
  pub profile_errors : ℕ
  pub last_error : DetectorRc
  pub last_error_reason : DetectorError

-- `struct active_candidate_internal`
pub record Active (W : Type 0) : Type 0 where
  pub pid : Pid
  pub delta : Delta W

-- A write through the pointer to the statistics, where it is no null pointer.
abbrev pub update_stats :
    (DetectorStats → DetectorStats) → Option DetectorStats → Option DetectorStats
update_stats f none = none
update_stats f (some s) = some (f s)

abbrev pub detector_stats_reset : DetectorStats
detector_stats_reset = record {
  process_count = 0;
  protected_processes = 0;
  normal_processes = 0;
  protected_profiles_built = 0;
  activity_samples = 0;
  active_normal_candidates = 0;
  normal_profiles_built = 0;
  output_candidates = 0;
  activity_errors = 0;
  profile_errors = 0;
  last_error = DetectorRc.ok;
  last_error_reason = DetectorError.nothing;
}

abbrev pub stats_set_error :
    DetectorRc → DetectorError → Option DetectorStats → Option DetectorStats
stats_set_error rc reason =
    update_stats (λ s. record s { last_error = rc; last_error_reason = reason })

abbrev pub process_state_reset : ProcessState
process_state_reset = record {
  pid = pos 0;
  role = Role.normal;
  alive = false;
  has_activity_sample = false;
  activity_sample = sample_reset;
}

module _ {W : Type 0} ⦃d : Double W⦄ where
  abbrev pub detector_config_default : DetectorConfig W
  detector_config_default = record {
    max_normal_candidates = 16;
    activity_score_threshold = d.decimal 0 0;
    overlap_score_threshold = d.decimal 30 2;
    throttle_score_threshold = d.decimal 20 2;
    activity_config = activity_config_default;
    profile_config = record sample_config_default {
      max_pages_to_sample = 4096;
      sample_stride_pages = 16;
    };
  }

  abbrev pub candidate_reset : Candidate W
  candidate_reset = record {
    pid = pos 0;
    activity_score = nought;
    cpu_score = nought;
    fault_score = nought;
    rss_score = nought;
    overlap_score = nought;
    final_score = nought;
    common_pages = 0;
    active = false;
    should_throttle = false;
  }

  abbrev pub compute_final_score : W → W → W
  compute_final_score activity_score overlap_score =
      d.mul (clamp01 activity_score) (clamp01 overlap_score)

  -- The order that `qsort` is given: `true` where the comparison is not positive.
  unfoldable pub active_in_order : Active W → Active W → Bool
  active_in_order a b =
      if d.lt a.delta.total_score b.delta.total_score
      then false
      else if d.lt b.delta.total_score a.delta.total_score
      then true
      else not (less b.pid a.pid)
