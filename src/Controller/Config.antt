-- ===== src/Controller/Config.antt =====
-- The configuration of the controller, its clock and its time arithmetic.
use cgroup_research.Prelude.{
  ℕ, ◌/◌, Bool, true, false, not, ◌&&◌, ◌||◌, Option, none, some, [], ◌∷◌, ◌++◌, ltb, leb, ◌==◌,
  if◌then◌else◌, codes,
}
use cgroup_research.Prelude.Word.{Text, uint64_max, mul_u64, add_u64, sub_u64, bounded_strlen}
use cgroup_research.Prelude.Double.{Double, nought, one}
use cgroup_research.Cgroup.Group.{Group, ◌==_group◌}
use cgroup_research.Controller.Types.{Rc, Config}

unfoldable pub valid_control_group : Group → Bool
valid_control_group g =
    g ==_group Group.protected || g ==_group Group.background || g ==_group Group.throttled

-- None of the first `len` bytes is a line feed or a carriage return.
one_line : ℕ → Text → Bool
one_line ℕ.zero s = true
one_line (ℕ.suc len) [] = true
one_line (ℕ.suc len) (c ∷ s) = not (c == 10 || c == 13) && one_line len s

-- The size of the buffer is `cap`; a caller's pointer is never NULL here.
unfoldable pub valid_control_value : Text → ℕ → Bool
unfolding one_line
valid_control_value value cap =
    let len = bounded_strlen value cap in
    not (cap == 0) && not (len == 0 || leb cap len) && one_line len value

abbrev pub value_max : ℕ
value_max = 64

abbrev pub nsec_per_msec : ℕ
nsec_per_msec = 1000000

-- Saturates where the product would wrap.
unfoldable pub ms_to_ns : ℕ → ℕ
ms_to_ns ms = if ltb (uint64_max / nsec_per_msec) ms then uint64_max else mul_u64 ms nsec_per_msec

unfoldable pub elapsed_at_least : ℕ → ℕ → ℕ → Bool
elapsed_at_least now_ns start_ns duration_ms =
    if ltb now_ns start_ns then false else leb (ms_to_ns duration_ms) (sub_u64 now_ns start_ns)

-- `clock_gettime` gives seconds and nanoseconds, or fails.
monotonic_now_ns : Option (ℕ × ℕ) → Option ℕ
monotonic_now_ns none = none
monotonic_now_ns (some (sec, nsec)) = some (add_u64 (mul_u64 sec 1000000000) nsec)

installed_clock : Option (ℕ → Option ℕ) → ℕ → Option (ℕ × ℕ) → Option ℕ
unfolding monotonic_now_ns
installed_clock none ctx reading = monotonic_now_ns reading
installed_clock (some f) ctx reading = f ctx

module _ {W : Type 0} ⦃d : Double W⦄ where
  unfoldable pub validate_config : Option (Config W) → Rc
  validate_config none = Rc.invalid_arg
  validate_config (some cfg) =
      if not (valid_control_group cfg.normal_group)
        || not (valid_control_group cfg.throttled_group)
        || not (valid_control_group cfg.protected_group)
      then Rc.invalid_arg
      else if cfg.normal_group ==_group cfg.throttled_group
          || cfg.normal_group ==_group cfg.protected_group
          || cfg.throttled_group ==_group cfg.protected_group
      then Rc.invalid_arg
      else if not (d.is_finite cfg.low_score_threshold)
          || not (d.is_finite cfg.high_score_threshold)
          || d.lt cfg.low_score_threshold nought
          || d.lt one cfg.high_score_threshold
          || d.lt cfg.high_score_threshold cfg.low_score_threshold
      then Rc.invalid_arg
      else if cfg.max_records == 0
      then Rc.invalid_arg
      else if cfg.configure_throttled_cpu_max
          && not (valid_control_value cfg.throttled_cpu_max value_max)
      then Rc.invalid_arg
      else if cfg.configure_protected_memory_low
          && not (valid_control_value cfg.protected_memory_low value_max)
      then Rc.invalid_arg
      else Rc.ok

  -- The structure after memset(0).
  abbrev pub zero_config : Config W
  zero_config = record {
    normal_group = Group.protected;
    throttled_group = Group.protected;
    protected_group = Group.protected;
    throttled_cpu_max = [];
    protected_memory_low = [];
    high_score_threshold = nought;
    low_score_threshold = nought;
    min_throttle_duration_ms = 0;
    cooldown_duration_ms = 0;
    stale_after_ms = 0;
    max_records = 0;
    dry_run = false;
    configure_throttled_cpu_max = false;
    configure_protected_memory_low = false;
    clock_fn = none;
    clock_ctx = 0;
  }

  -- The bytes behind the terminator are zero.
  unfoldable pub config_default : Config W
  config_default = record {
    normal_group = Group.background;
    throttled_group = Group.throttled;
    protected_group = Group.protected;
    throttled_cpu_max = codes "20000 100000" ++ (0 ∷ []);
    protected_memory_low = codes "0" ++ (0 ∷ []);
    high_score_threshold = d.decimal 20 2;
    low_score_threshold = d.decimal 10 2;
    min_throttle_duration_ms = 3000;
    cooldown_duration_ms = 2000;
    stale_after_ms = 2000;
    max_records = 256;
    dry_run = false;
    configure_throttled_cpu_max = true;
    configure_protected_memory_low = false;
    clock_fn = none;
    clock_ctx = 0;
  }

  -- `none` is THROTTLE_CONTROLLER_ERR_TIME, which both failures become.
  unfoldable pub controller_now_ns : Config W → Option (ℕ × ℕ) → Option ℕ
  unfolding installed_clock
  controller_now_ns cfg reading = installed_clock cfg.clock_fn cfg.clock_ctx reading
