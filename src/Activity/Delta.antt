-- ===== src/Activity/Delta.antt =====
-- proc_activity.c: the difference of two samples of a process.
use cgroup_research.Prelude.{
  ℕ, ◌-◌, ◌^◌, Bool, true, false, not, ◌&&◌, ◌||◌, Pid, ℤ, pos, negsuc, positive, eq_ℤ, ltb, leb,
  ◌==◌, if◌then◌else◌,
}
use cgroup_research.Prelude.Word.{Text, add_u64, sub_u64}
use cgroup_research.Prelude.Double.{Double, nought, one}

-- `enum proc_activity_rc`
pub data ActivityRc : Type 0 where
  ok invalid_arg open_failed read_failed parse sysconf pid_reused non_monotonic_time : ActivityRc

-- `struct proc_activity_sample`
pub record Sample : Type 0 where
  pub pid : Pid
  pub comm : Text
  pub state : ℕ
  pub valid : Bool
  pub timestamp_ns : ℕ
  pub clock_ticks_per_sec : ℤ
  pub page_size : ℕ
  pub minflt : ℕ
  pub majflt : ℕ
  pub utime_ticks : ℕ
  pub stime_ticks : ℕ
  pub starttime_ticks : ℕ
  pub vsize_bytes : ℕ
  pub rss_pages : ℤ
  pub num_threads : ℤ

-- The texts that are printed into `reason`.
pub data Activity : Type 0 where
  untold reused zombie rss_too_small working below_threshold : Activity

abbrev pub less : ℤ → ℤ → Bool
less (pos a) (pos b) = ltb a b
less (pos a) (negsuc b) = false
less (negsuc a) (pos b) = true
less (negsuc a) (negsuc b) = ltb b a

-- (int64_t)n
abbrev pub to_i64 : ℕ → ℤ
to_i64 n = if ltb n (2 ^ 63) then pos n else negsuc (2 ^ 64 - 1 - n)

-- `pages >= (int64_t)least`
abbrev pub at_least : ℤ → ℕ → Bool
at_least pages least = not (less pages (to_i64 least))

abbrev pub count_of : ℤ → ℕ
count_of (pos n) = n
count_of (negsuc n) = 0

-- `struct proc_activity_config`
pub record ActivityConfig (W : Type 0) : Type 0 where
  pub active_cpu_ratio_threshold : W
  pub active_faults_per_sec_threshold : W
  pub min_rss_pages : ℕ
  pub major_fault_weight : W
  pub cpu_ratio_full_scale : W
  pub faults_per_sec_full_scale : W
  pub rss_mib_full_scale : W

-- `struct proc_activity_delta`
pub record Delta (W : Type 0) : Type 0 where
  pub pid : Pid
  pub valid : Bool
  pub active : Bool
  pub pid_reused : Bool
  pub elapsed_sec : W
  pub cpu_ticks_delta : ℕ
  pub cpu_seconds : W
  pub cpu_ratio : W
  pub minflt_delta : ℕ
  pub majflt_delta : ℕ
  pub weighted_faults : W
  pub faults_per_sec : W
  pub rss_mib : W
  pub cpu_score : W
  pub fault_score : W
  pub rss_score : W
  pub total_score : W
  pub reason : Activity

module _ {W : Type 0} ⦃d : Double W⦄ where
  abbrev pub activity_config_default : ActivityConfig W
  activity_config_default = record {
    active_cpu_ratio_threshold = d.decimal 2 2;
    active_faults_per_sec_threshold = d.decimal 100 0;
    min_rss_pages = 256;
    major_fault_weight = d.decimal 8 0;
    cpu_ratio_full_scale = d.decimal 25 2;
    faults_per_sec_full_scale = d.decimal 1000 0;
    rss_mib_full_scale = d.decimal 256 0;
  }

  abbrev pub delta_reset : Delta W
  delta_reset = record {
    pid = pos 0;
    valid = false;
    active = false;
    pid_reused = false;
    elapsed_sec = nought;
    cpu_ticks_delta = 0;
    cpu_seconds = nought;
    cpu_ratio = nought;
    minflt_delta = 0;
    majflt_delta = 0;
    weighted_faults = nought;
    faults_per_sec = nought;
    rss_mib = nought;
    cpu_score = nought;
    fault_score = nought;
    rss_score = nought;
    total_score = nought;
    reason = Activity.untold;
  }

  abbrev pub clamp01 : W → W
  clamp01 value = if d.lt value nought then nought else if d.lt one value then one else value

  -- The counters and the scores, after all the tests.
  unfoldable pub measured : Sample → Sample → ActivityConfig W → ℤ → Delta W → Delta W
  measured old new cfg clock_ticks out =
      let ticks =
        sub_u64 (add_u64 new.utime_ticks new.stime_ticks)
          (add_u64 old.utime_ticks old.stime_ticks) in
      let cpu_seconds = d.ratio ticks (count_of clock_ticks) in
      let cpu_ratio = d.div cpu_seconds out.elapsed_sec in
      let minflt = sub_u64 new.minflt old.minflt in
      let majflt = sub_u64 new.majflt old.majflt in
      let weighted = d.add (d.of_u64 minflt) (d.mul cfg.major_fault_weight (d.of_u64 majflt)) in
      let faults = d.div weighted out.elapsed_sec in
      let bytes = d.mul (d.of_u64 (count_of new.rss_pages)) (d.of_u64 new.page_size) in
      let mib =
        if positive new.rss_pages && ltb 0 new.page_size
        then d.div bytes (d.mul (d.decimal 1024 0) (d.decimal 1024 0))
        else nought in
      let cpu_score = clamp01 (d.div cpu_ratio cfg.cpu_ratio_full_scale) in
      let fault_score = clamp01 (d.div faults cfg.faults_per_sec_full_scale) in
      let rss_score = clamp01 (d.div mib cfg.rss_mib_full_scale) in
      record out {
        cpu_ticks_delta = ticks;
        cpu_seconds = cpu_seconds;
        cpu_ratio = cpu_ratio;
        minflt_delta = minflt;
        majflt_delta = majflt;
        weighted_faults = weighted;
        faults_per_sec = faults;
        rss_mib = mib;
        cpu_score = cpu_score;
        fault_score = fault_score;
        rss_score = rss_score;
        total_score =
            d.add (d.add (d.mul (d.decimal 2 1) cpu_score) (d.mul (d.decimal 5 1) fault_score))
              (d.mul (d.decimal 3 1) rss_score);
      }

  -- R is 82, D is 68 and Z is 90.
  unfoldable pub judged : Sample → ActivityConfig W → Delta W → Delta W
  judged new cfg out =
      let cpu_active = d.le cfg.active_cpu_ratio_threshold out.cpu_ratio in
      let fault_active = d.le cfg.active_faults_per_sec_threshold out.faults_per_sec in
      let state_active = new.state == 82 || new.state == 68 in
      if new.state == 90
      then record out { active = false; reason = Activity.zombie; valid = true }
      else if not (at_least new.rss_pages cfg.min_rss_pages)
      then record out { active = false; reason = Activity.rss_too_small; valid = true }
      else if cpu_active || (fault_active || state_active)
      then record out { active = true; reason = Activity.working; valid = true }
      else record out { active = false; reason = Activity.below_threshold; valid = true }

  -- From the elapsed time on.
  unfoldable pub compute_elapsed :
      Sample → Sample → ActivityConfig W → Delta W → ActivityRc × Delta W
  unfolding measured judged
  compute_elapsed old new cfg out =
      let old_ticks = add_u64 old.utime_ticks old.stime_ticks in
      let new_ticks = add_u64 new.utime_ticks new.stime_ticks in
      let clock =
        if positive new.clock_ticks_per_sec
        then new.clock_ticks_per_sec
        else old.clock_ticks_per_sec in
      if d.le out.elapsed_sec nought
      then (ActivityRc.non_monotonic_time, out)
      else if ltb new_ticks old_ticks
      then (ActivityRc.parse, out)
      else if ltb new.minflt old.minflt || ltb new.majflt old.majflt
      then (ActivityRc.parse, out)
      else if not (positive clock)
      then (ActivityRc.sysconf, out)
      else (ActivityRc.ok, judged new cfg (measured old new cfg clock out))

  unfoldable pub compute_delta : Sample → Sample → ActivityConfig W → ActivityRc × Delta W
  unfolding compute_elapsed
  compute_delta old new cfg =
      let named = record delta_reset { pid = new.pid } in
      if not old.valid || not new.valid
      then (ActivityRc.invalid_arg, delta_reset)
      else if not (eq_ℤ old.pid new.pid)
      then (ActivityRc.invalid_arg, delta_reset)
      else if not (old.starttime_ticks == new.starttime_ticks)
      then (ActivityRc.pid_reused, record named { pid_reused = true; reason = Activity.reused })
      else if leb new.timestamp_ns old.timestamp_ns
      then (ActivityRc.non_monotonic_time, named)
      else compute_elapsed old new cfg (record named {
        elapsed_sec = d.ratio (sub_u64 new.timestamp_ns old.timestamp_ns) 1000000000;
      })
