-- ===== src/Activity/Sampler.antt =====
-- proc_activity.c: `proc_activity_sample_now`, from what the system answers.
use cgroup_research.Prelude.{
  ℕ, suc, ◌-◌, Bool, not, ◌||◌, Option, none, some, List, [], ◌∷◌, ◌++◌, Pid, ℤ, pos, positive, ltb,
  leb, if◌then◌else◌, length, take, codes,
}
use cgroup_research.Prelude.Word.{Text, add_u64, mul_u64}
use cgroup_research.Cgroup.Decimal.{print_pid}
use cgroup_research.AddrTranslate.Translate.{Descriptors, close}
use cgroup_research.Activity.Delta.{ActivityRc, Sample, count_of}
use cgroup_research.Activity.Stat.{
  skip_spaces, at_end, parse_stat_values, find_first, find_last, from, assign_values,
}

-- What the system answers: the two calls of `sysconf`; `clock_gettime`, `none` where it fails; the
-- descriptor of the stream that `fopen` gives for a path, if there is one; and the string that `fgets`
-- stores, `none` where it gives NULL.
pub record Answers : Type 0 where
  pub page_size : ℤ
  pub clock_ticks : ℤ
  pub clock : Option (ℕ × ℕ)
  pub fopen : Text → Option ℤ
  pub line : Option Text

-- `proc_activity_sample_reset`
abbrev pub sample_reset : Sample
sample_reset = record {
  pid = pos 0;
  comm = [];
  state = 0;
  valid = Bool.false;
  timestamp_ns = 0;
  clock_ticks_per_sec = pos 0;
  page_size = 0;
  minflt = 0;
  majflt = 0;
  utime_ticks = 0;
  stime_ticks = 0;
  starttime_ticks = 0;
  vsize_bytes = 0;
  rss_pages = pos 0;
  num_threads = pos 0;
}

-- `none` is PROC_ACTIVITY_ERR_READ.
abbrev pub get_time_ns : Option (ℕ × ℕ) → Option ℕ
get_time_ns none = none
get_time_ns (some (sec, nsec)) = some (add_u64 (mul_u64 sec 1000000000) nsec)

abbrev pub stat_path : Pid → Text
stat_path pid = codes "/proc/" ++ (print_pid pid ++ codes "/stat")

-- From the values on.
unfoldable pub with_values : Answers → Pid → Option (List ℤ) → Sample → ActivityRc × Sample
unfolding assign_values
with_values answers pid none out = (ActivityRc.parse, out)
with_values answers pid (some vals) out =
    if ltb (length vals) 21
    then (ActivityRc.parse, out)
    else assign_values vals (record out {
      pid = pid;
      clock_ticks_per_sec = answers.clock_ticks;
      page_size = count_of answers.page_size;
    })

-- From the state on; `p` is the text behind the last parenthesis, without its first spaces.
unfoldable pub with_state : Answers → Pid → Text → Sample → ActivityRc × Sample
unfolding with_values
with_state answers pid [] out = (ActivityRc.parse, out)
with_state answers pid (c ∷ p) out =
    if at_end (c ∷ p)
    then (ActivityRc.parse, out)
    else with_values answers pid (parse_stat_values 21 p) (record out { state = c })

-- 63 is the size of `comm` without its NUL.
unfoldable pub with_name : Answers → Pid → Text → Option ℕ → Option ℕ → Sample → ActivityRc × Sample
unfolding with_state
with_name answers pid line (some lparen) (some rparen) out =
    let comm_len = rparen - lparen - 1 in
    let comm = take (if leb 64 comm_len then 63 else comm_len) (from (suc lparen) line) in
    if leb rparen lparen
    then (ActivityRc.parse, out)
    else with_state answers pid (skip_spaces (from (suc rparen) line)) (record out { comm = comm })
with_name answers pid line lparen rparen out = (ActivityRc.parse, out)

-- 40 is '(' and 41 is ')'.
unfoldable pub parse_line : Answers → Pid → Text → Sample → ActivityRc × Sample
unfolding with_name
parse_line answers pid line out =
    with_name answers pid line (find_first 40 line) (find_last 41 line) out

-- From the stream on: it is closed where no line is read, and stays open where one is.
unfoldable pub read_line :
    Answers → Pid → ℤ → Option Text → Sample → Descriptors → ActivityRc × Sample × Descriptors
unfolding parse_line
read_line answers pid fd none out ds = (ActivityRc.read_failed, out, close fd (fd ∷ ds))
read_line answers pid fd (some line) out ds =
    let (rc, out') = parse_line answers pid line out in (rc, out', fd ∷ ds)

unfoldable pub read_stat :
    Answers → Pid → Option ℤ → Sample → Descriptors → ActivityRc × Sample × Descriptors
unfolding read_line
read_stat answers pid none out ds = (ActivityRc.open_failed, out, ds)
read_stat answers pid (some fd) out ds = read_line answers pid fd answers.line out ds

unfoldable pub sample_timed :
    Answers → Pid → Option ℕ → Descriptors → ActivityRc × Sample × Descriptors
unfolding read_stat
sample_timed answers pid none ds = (ActivityRc.read_failed, sample_reset, ds)
sample_timed answers pid (some now) ds =
    let out = record sample_reset { timestamp_ns = now } in
    if leb 256 (length (stat_path pid))
    then (ActivityRc.invalid_arg, out, ds)
    else read_stat answers pid (answers.fopen (stat_path pid)) out ds

-- `out` is what the output pointer, which is no null pointer, points at before the call. The result has
-- the descriptors that are open after it.
unfoldable pub sample_now : Answers → Pid → Sample → Descriptors → ActivityRc × Sample × Descriptors
unfolding sample_timed
sample_now answers pid out ds =
    if not (positive pid)
    then (ActivityRc.invalid_arg, out, ds)
    else if not (positive answers.page_size) || not (positive answers.clock_ticks)
    then (ActivityRc.sysconf, sample_reset, ds)
    else sample_timed answers pid (get_time_ns answers.clock) ds
