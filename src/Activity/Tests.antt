-- ===== src/Activity/Tests.antt =====
-- Runs of proc_activity.c and activity_prefilter.c, and their theorems at concrete inputs.
use mathlib.Core.List.Perm
use cgroup_research.Prelude.{
  ℕ, ◌≡◌, refl, some, true, List, [], ◌∷◌, pos, negsuc, codes, eq_ℤ, positive, if◌then◌else◌, arith,
}
use cgroup_research.Prelude.Double.{fixed_point}
use cgroup_research.Activity.Stat.{value_at}
use cgroup_research.Activity.Sampler.{Answers, sample_reset, sample_now}
use cgroup_research.Activity.StatLine.{StatLine, print_line}
use cgroup_research.Activity.Sampled.{
  Counted, sample_of, sample_now-print_line, Sampled, sample_now-Sampled,
}
use cgroup_research.Activity.Delta.{
  ActivityRc, Sample, activity_config_default, delta_reset, compute_delta,
}
use cgroup_research.Activity.Differences.{Compared, compute_delta-Compared}
use cgroup_research.Activity.Prefilter.{
  Observation, Screened, prefilter_config_default, screened, in_order, is_eligible, select_topk,
}
use cgroup_research.Activity.Selection.{Selected, eligible_of, select_topk-Selected}

-- A running process, a second apart.
abbrev before : Sample
before = record {
  pid = pos 7;
  comm = codes "make";
  state = 82;
  valid = true;
  timestamp_ns = 1000000000;
  clock_ticks_per_sec = pos 100;
  page_size = 4096;
  minflt = 10;
  majflt = 1;
  utime_ticks = 5;
  stime_ticks = 5;
  starttime_ticks = 3;
  vsize_bytes = 0;
  rss_pages = pos 512;
  num_threads = pos 1;
}

abbrev after : Sample
after = record before { timestamp_ns = 2000000000; minflt = 30; utime_ticks = 25 }

compute_delta-Compared_example :
    Compared before after
      (activity_config_default {W = ℕ})
      (compute_delta before after activity_config_default)
compute_delta-Compared_example =
    compute_delta-Compared before after activity_config_default
      (record { minflt_word = omega arith; majflt_word = omega arith })

-- Two observations, the less active one first.
abbrev observed : ℕ → ℕ → Observation ℕ
observed n score = record {
  pid = pos n;
  sample = record after { pid = pos n };
  delta = record (delta_reset {W = ℕ}) { pid = pos n; valid = true; cpu_score = score };
}

abbrev observations : List (Observation ℕ)
observations = observed 7 1000 ∷ observed 11 2000 ∷ []

insert_screened : Screened ℕ → List (Screened ℕ) → List (Screened ℕ)
insert_screened x [] = x ∷ []
insert_screened x (y ∷ ys) =
    let rest = insert_screened x ys in if in_order x y then x ∷ y ∷ ys else y ∷ rest

sorted : List (Screened ℕ) → List (Screened ℕ)
unfolding insert_screened
sorted [] = []
sorted (x ∷ xs) = insert_screened x (sorted xs)

select_topk-Selected_example :
    Selected true prefilter_config_default 2 observations
      (screened (observed 7 1000) ∷ screened (observed 11 2000) ∷ [])
      (select_topk sorted true prefilter_config_default 2 observations)
unfolding sorted insert_screened in_order eligible_of is_eligible positive eq_ℤ
select_topk-Selected_example =
    select_topk-Selected sorted true prefilter_config_default 2 observations
      (Perm.swap (screened (observed 7 1000)) (screened (observed 11 2000)) [])
      ((refl, tt), (tt, tt))

-- A process whose name has a space and both parentheses.
abbrev shown : StatLine
shown = record {
  pid = pos 7;
  comm = codes "a) (b";
  state = 82;
  values =
      pos 1
      ∷ pos 1
      ∷ pos 1
      ∷ pos 0
      ∷ negsuc 0
      ∷ pos 0
      ∷ pos 900
      ∷ pos 0
      ∷ pos 3
      ∷ pos 0
      ∷ pos 40
      ∷ pos 10
      ∷ pos 0
      ∷ pos 0
      ∷ pos 20
      ∷ pos 0
      ∷ pos 1
      ∷ pos 0
      ∷ pos 3
      ∷ pos 8192
      ∷ pos 512
      ∷ [];
  tail = codes " 18446744073709551615\n";
}

abbrev shown_counts : Counted shown.values
unfolding value_at
shown_counts = record {
  minflt = 900;
  majflt = 3;
  utime = 40;
  stime = 10;
  starttime = 3;
  vsize = 8192;
  is_minflt = refl;
  is_majflt = refl;
  is_utime = refl;
  is_stime = refl;
  is_starttime = refl;
  is_vsize = refl;
}

abbrev shown_answers : Answers
shown_answers = record {
  page_size = pos 4096;
  clock_ticks = pos 100;
  clock = some (2, 5);
  fopen = λ path. some (pos 5);
  line = some (print_line shown);
}

sample_now-print_line_example :
    sample_now shown_answers (pos 7) sample_reset []
    ≡ (ActivityRc.ok, sample_of shown_answers 2000000005 shown shown_counts, pos 5 ∷ [])
unfolding value_at positive
sample_now-print_line_example =
    sample_now-print_line shown_answers 7 2000000005 (pos 5) shown shown_counts sample_reset []
      (record {
        pid_positive = refl;
        pid_range = omega arith;
        page_size_positive = refl;
        clock_ticks_positive = refl;
        time = refl;
        opens = refl;
        reads = refl;
        is_pid = refl;
      })
      (record {
        comm_short = omega arith;
        state_solid = refl;
        state_plain = refl;
        values_number = refl;
        values_range = ground arith;
        tail_ends = refl;
        tail_plain = ground arith;
      })

sample_now-Sampled_example :
    Sampled shown_answers (pos 7) [] (sample_now shown_answers (pos 7) sample_reset [])
sample_now-Sampled_example = sample_now-Sampled shown_answers (pos 7) sample_reset []
