-- ===== src/Controller/Types.antt =====
-- The data of throttle_controller.h. A `char` buffer that only carries a message for a reader is the
-- message with the values printed into it.
use cgroup_research.Prelude.{ℕ, Bool, Option, List, Pid}
use cgroup_research.Prelude.Word.{Text}
use cgroup_research.Cgroup.Group.{Group}

-- `enum throttle_controller_rc`
pub data Rc : Type 0 where
  ok invalid_arg no_memory no_space time cgroup not_initialized : Rc

-- `enum throttle_state`; `other n` is the value n + 3 that an `int` can hold beside the three names.
pub data State : Type 0 where
  none throttled cooldown : State
  other : ℕ → State

-- `state == THROTTLE_STATE_THROTTLED`
abbrev pub is_throttled : State → Bool
is_throttled State.throttled = Bool.true
is_throttled _ = Bool.false

-- The texts that the controller writes into `reason` and `last_error_reason`.
pub data Message (W : Type 0) : Type 0 where
  empty new_record : Message W
  failed_to_throttle failed_to_release : Message W
  throttled_at : (final activity overlap : W) → Message W
  released_stale : Message W
  released_at : (final low : W) → Message W
  not_throttled : (final high : W) (active detector : Bool) → Message W
  kept_throttled : (final low : W) (min_done : Bool) → Message W
  cooldown_active cooldown_remains_normal cooldown_normal : Message W
  unseen_but_kept : (stale_done min_done : Bool) → Message W
  invalid_state : Message W
  validation_failed time_failed capacity_exhausted : Message W

-- `struct interference_candidate` of interference_detector.h, without its message.
pub record Candidate (W : Type 0) : Type 0 where
  pub pid : Pid
  pub activity_score : W
  pub cpu_score : W
  pub fault_score : W
  pub rss_score : W
  pub overlap_score : W
  pub final_score : W
  pub common_pages : ℕ
  pub active : Bool
  pub should_throttle : Bool

-- `struct throttle_controller_config`. `clock_fn` is given what `clock_ctx` points at, and is
-- `none` where it fails.
pub record Config (W : Type 0) : Type 0 where
  pub normal_group : Group
  pub throttled_group : Group
  pub protected_group : Group
  pub throttled_cpu_max : Text
  pub protected_memory_low : Text
  pub high_score_threshold : W
  pub low_score_threshold : W
  pub min_throttle_duration_ms : ℕ
  pub cooldown_duration_ms : ℕ
  pub stale_after_ms : ℕ
  pub max_records : ℕ
  pub dry_run : Bool
  pub configure_throttled_cpu_max : Bool
  pub configure_protected_memory_low : Bool
  pub clock_fn : Option (ℕ → Option ℕ)
  pub clock_ctx : ℕ

-- `struct throttle_record`
pub record Record (W : Type 0) : Type 0 where
  pub pid : Pid
  pub state : State
  pub first_seen_ns : ℕ
  pub last_seen_ns : ℕ
  pub state_entered_ns : ℕ
  pub last_action_ns : ℕ
  pub last_activity_score : W
  pub last_overlap_score : W
  pub last_final_score : W
  pub last_common_pages : ℕ
  pub seen_in_last_apply : Bool
  pub last_should_throttle : Bool
  pub last_error : Rc
  pub reason : Message W

-- `struct throttle_controller`: `records` lists the first `record_count` elements of the array.
pub record Controller (W : Type 0) : Type 0 where
  pub initialized : Bool
  pub cfg : Config W
  pub records : List (Record W)
  pub record_cap : ℕ

-- `struct throttle_controller_stats`
pub record Stats (W : Type 0) : Type 0 where
  pub candidate_count : ℕ
  pub records_seen : ℕ
  pub throttle_actions : ℕ
  pub release_actions : ℕ
  pub kept_throttled : ℕ
  pub skipped_low_score : ℕ
  pub skipped_cooldown : ℕ
  pub stale_releases : ℕ
  pub errors : ℕ
  pub last_error : Rc
  pub last_error_reason : Message W
