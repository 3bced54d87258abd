-- ===== src/Activity/Sampled.antt =====
-- What `proc_activity_sample_now` makes of the answers of the system.
use cgroup_research.Prelude.{
  ℕ, zero, suc, ◌+◌, ◌*◌, ◌/◌, ◌%◌, ◌^◌, ◌≤◌, ◌<◌, ◌≡◌, refl, sym, ap, ◌∙◌, inl, inr, true, false,
  List, [], ◌∷◌, Option, none, some, ℤ, Pid, pos, positive, ◌==◌, leb, length, length-append, arith,
  codes, Bool-cases, Option-cases,
}
use cgroup_research.Prelude.Word.{Text}
use cgroup_research.Cgroup.Decimal.{digits_onto, print_pid}
use cgroup_research.AddrTranslate.Translate.{Descriptors}
use cgroup_research.AddrTranslate.Descriptors.{close-first}
use cgroup_research.Activity.Delta.{ActivityRc, Sample, count_of}
use cgroup_research.Activity.Stat.{value_at, assign_values}
use cgroup_research.Activity.Sampler.{
  Answers, sample_reset, get_time_ns, stat_path, parse_line, read_line, read_stat, sample_timed,
  sample_now,
}
use cgroup_research.Activity.StatLine.{
  StatLine, IsStatLine, print_line, named, parse_line-print_line,
}

-- The ways of a call: an error before a line is read, and the parse of a line, whose stream stays open.
pub data Sampled (answers : Answers) (pid : Pid) (ds : Descriptors)
    : ActivityRc × Sample × Descriptors → Type 0 where
  unread :
      (rc : ActivityRc) (out : Sample)
      → (rc ≡ ActivityRc.ok → ⊥)
      → (rc ≡ ActivityRc.parse → ⊥)
      → Sampled answers pid ds (rc, out, ds)
  parsed :
      (fd : ℤ) (line : Text) (now : ℕ)
      → answers.fopen (stat_path pid) ≡ some fd
      → answers.line ≡ some line
      → get_time_ns answers.clock ≡ some now
      → Sampled answers pid ds (
        (parse_line answers pid line (record sample_reset { timestamp_ns = now })).0,
        (parse_line answers pid line (record sample_reset { timestamp_ns = now })).1,
        fd ∷ ds,
      )

read_line-Sampled :
    (answers : Answers) (pid : Pid) (fd : ℤ) (now : ℕ) (line : Option Text) (ds : Descriptors)
    → answers.fopen (stat_path pid) ≡ some fd
    → get_time_ns answers.clock ≡ some now
    → answers.line ≡ line
    → Sampled answers pid ds
        (read_line answers pid fd line (record sample_reset { timestamp_ns = now }) ds)
unfolding read_line
read_line-Sampled answers pid fd now none ds o e l =
    rw (close-first fd ds) (Sampled.unread ActivityRc.read_failed _ (λ h. cc) (λ h. cc))
read_line-Sampled answers pid fd now (some line) ds o e l = Sampled.parsed fd line now o l e

-- A call fails before it reads a line, and leaves the descriptors as they were, or it parses the line
-- that the stat file of the pid gives, and leaves the descriptor of that file open, whether the parse
-- succeeds or not. Only the parse succeeds, or reports a parse error.
pub sample_now-Sampled :
    (answers : Answers) (pid : Pid) (out : Sample) (ds : Descriptors)
    → Sampled answers pid ds (sample_now answers pid out ds)
unfolding sample_now sample_timed read_stat
sample_now-Sampled answers pid out ds = elim (Bool-cases (positive pid)) [
  | inr n ↦ rw n (Sampled.unread ActivityRc.invalid_arg out (λ h. cc) (λ h. cc))
  | inl p ↦ elim (Bool-cases (positive answers.page_size)) [
    | inr n ↦ rw (p, n) (Sampled.unread ActivityRc.sysconf sample_reset (λ h. cc) (λ h. cc))
    | inl s ↦ elim (Bool-cases (positive answers.clock_ticks)) [
      | inr n ↦ rw (p, s, n) (Sampled.unread ActivityRc.sysconf sample_reset (λ h. cc) (λ h. cc))
      | inl t ↦ elim (Option-cases (get_time_ns answers.clock)) [
        | inl e ↦
            rw (p, s, t, e) (Sampled.unread ActivityRc.read_failed sample_reset (λ h. cc) (λ h. cc))
        | inr (now, e) ↦ elim (Bool-cases (leb 256 (length (stat_path pid)))) [
          | inl long ↦
              rw (p, s, t, e, long) (Sampled.unread ActivityRc.invalid_arg _ (λ h. cc) (λ h. cc))
          | inr short ↦ elim (Option-cases (answers.fopen (stat_path pid))) [
            | inl o ↦
                rw (p, s, t, e, short, o)
                  (Sampled.unread ActivityRc.open_failed _ (λ h. cc) (λ h. cc))
            | inr (fd, o) ↦
                rw (p, s, t, e, short, o)
                  (read_line-Sampled answers pid fd now answers.line ds o e refl)
          ]
        ]
      ]
    ]
  ]
]

-- The counters of a line, where none is negative.
pub record Counted (vals : List ℤ) : Type 0 where
  pub minflt : ℕ
  pub majflt : ℕ
  pub utime : ℕ
  pub stime : ℕ
  pub starttime : ℕ
  pub vsize : ℕ
  pub is_minflt : value_at vals 6 ≡ pos minflt
  pub is_majflt : value_at vals 8 ≡ pos majflt
  pub is_utime : value_at vals 10 ≡ pos utime
  pub is_stime : value_at vals 11 ≡ pos stime
  pub is_starttime : value_at vals 18 ≡ pos starttime
  pub is_vsize : value_at vals 19 ≡ pos vsize

-- The sample of a line.
abbrev pub sample_of : Answers → ℕ → (l : StatLine) → Counted l.values → Sample
sample_of answers now l k = record {
  pid = l.pid;
  comm = l.comm;
  state = l.state;
  valid = true;
  timestamp_ns = now;
  clock_ticks_per_sec = answers.clock_ticks;
  page_size = count_of answers.page_size;
  minflt = k.minflt;
  majflt = k.majflt;
  utime_ticks = k.utime;
  stime_ticks = k.stime;
  starttime_ticks = k.starttime;
  vsize_bytes = k.vsize;
  rss_pages = value_at l.values 20;
  num_threads = value_at l.values 16;
}

assign_values-Counted :
    (vals : List ℤ) (out : Sample) (k : Counted vals)
    → assign_values vals out ≡ (
      ActivityRc.ok,
      record out {
        minflt = k.minflt;
        majflt = k.majflt;
        utime_ticks = k.utime;
        stime_ticks = k.stime;
        starttime_ticks = k.starttime;
        vsize_bytes = k.vsize;
        rss_pages = value_at vals 20;
        num_threads = value_at vals 16;
        valid = true;
      },
    )
unfolding assign_values
assign_values-Counted vals out k =
    rw (k.is_minflt, k.is_majflt, k.is_utime, k.is_stime, k.is_starttime, k.is_vsize) refl

abbrev power_of_ten : ℕ → ℕ
power_of_ten zero = 1
power_of_ten (suc k) = 10 * power_of_ten k

-- A pid has so few digits that its path fits.
digits_onto-length :
    (k fuel n : ℕ) (s : Text)
    → n < power_of_ten (suc k)
    → length (digits_onto fuel n s) ≤ suc k + length s
unfolding digits_onto
digits_onto-length k zero n s h = omega arith
digits_onto-length zero (suc fuel) n s h =
    let last : (n / 10 == 0) ≡ true = ground arith in rw last (omega arith)
digits_onto-length (suc k) (suc fuel) n s h = elim (Bool-cases (n / 10 == 0)) [
  | inl last ↦ rw last (omega arith)
  | inr more ↦
      rw more (omega (arith, digits_onto-length k fuel (n / 10) ((48 + n % 10) ∷ s) (omega arith)))
]

stat_path-fits : (n : ℕ) → n < 2 ^ 31 → leb 256 (length (stat_path (pos n))) ≡ false
unfolding print_pid
stat_path-fits n h =
    let digits = digits_onto-length 9 (suc n) n [] (omega arith) in
    let path = length-append (digits_onto (suc n) n []) (codes "/stat") in
    ground (arith, digits, path)

read_line-parsed :
    (answers : Answers) (pid : Pid) (line : Text) (start out : Sample) (fd : ℤ) (ds : Descriptors)
    → parse_line answers pid line start ≡ (ActivityRc.ok, out)
    → read_line answers pid fd (some line) start ds ≡ (ActivityRc.ok, out, fd ∷ ds)
unfolding read_line
read_line-parsed answers pid line start out fd ds e = ap (λ r. (r.0, r.1, fd ∷ ds)) e

-- A system on which a process has the stat line `l`: the calls answer, and the line that is read is the
-- print of the parts.
pub record Shows (answers : Answers) (n now : ℕ) (fd : ℤ) (l : StatLine) : Type 0 where
  pub pid_positive : positive (pos n) ≡ true
  pub pid_range : n < 2 ^ 31
  pub page_size_positive : positive answers.page_size ≡ true
  pub clock_ticks_positive : positive answers.clock_ticks ≡ true
  pub time : get_time_ns answers.clock ≡ some now
  pub opens : answers.fopen (stat_path (pos n)) ≡ some fd
  pub reads : answers.line ≡ some (print_line l)
  pub is_pid : l.pid ≡ pos n

-- The sample of a process is its stat line, field by field, with the time and the two sizes of the
-- system, for every line that the kernel may print whose counters are not negative: spaces and
-- parentheses in the name of the process mislead it nowhere. The descriptor of the file stays open.
pub sample_now-print_line :
    (answers : Answers) (n now : ℕ) (fd : ℤ) (l : StatLine) (k : Counted l.values) (out : Sample)
    (ds : Descriptors)
    → Shows answers n now fd l
    → IsStatLine l
    → sample_now answers (pos n) out ds ≡ (ActivityRc.ok, sample_of answers now l k, fd ∷ ds)
unfolding sample_now sample_timed read_stat
sample_now-print_line answers n now fd l k out ds s h =
    let start = record sample_reset { timestamp_ns = now } in
    let parsed : parse_line answers (pos n) (print_line l) start
        ≡ (ActivityRc.ok, sample_of answers now l k) =
      parse_line-print_line answers (pos n) l start h
      ∙ assign_values-Counted l.values (named answers (pos n) l start) k
      ∙ ap (λ p. (ActivityRc.ok, record (sample_of answers now l k) { pid = p })) (sym s.is_pid) in
    let line : read_line answers (pos n) fd answers.line start ds
        ≡ (ActivityRc.ok, sample_of answers now l k, fd ∷ ds) =
      ap (λ t. read_line answers (pos n) fd t start ds) s.reads
      ∙ read_line-parsed answers (pos n) (print_line l) start _ fd ds parsed in
    rw
      (
        s.pid_positive,
        s.page_size_positive,
        s.clock_ticks_positive,
        s.time,
        stat_path-fits n s.pid_range,
        s.opens,
      )
      line
