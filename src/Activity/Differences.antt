-- ===== src/Activity/Differences.antt =====
-- What a delta of two samples says.
use cgroup_research.Prelude.{
  ℕ, ◌+◌, ◌≤◌, ◌<◌, ◌≡◌, refl, Bool, true, false, not, ◌&&◌, ◌||◌, positive, ℤ, eq_ℤ, ltb, leb,
  ◌==◌, if◌then◌else◌, arith, Bool-cases, inl, inr,
}
use cgroup_research.Prelude.Word.{word, add_u64, sub_u64}
use cgroup_research.Prelude.Double.{Double, nought}
use cgroup_research.Activity.Delta.{
  ActivityRc, Sample, ActivityConfig, Delta, at_least, delta_reset, measured, judged,
  compute_elapsed, compute_delta,
}

-- The ticks of both modes, as the code adds them.
abbrev pub cpu_ticks : Sample → ℕ
cpu_ticks s = add_u64 s.utime_ticks s.stime_ticks

-- Counters of 64 bits.
pub record AreWords (s : Sample) : Type 0 where
  pub minflt_word : s.minflt < word
  pub majflt_word : s.majflt < word

-- Two samples of one process, in their order, whose counters have not gone back.
pub record AreComparable (old new : Sample) : Type 0 where
  pub old_valid : old.valid ≡ true
  pub new_valid : new.valid ≡ true
  pub same_pid : eq_ℤ old.pid new.pid ≡ true
  pub same_start : old.starttime_ticks ≡ new.starttime_ticks
  pub later : old.timestamp_ns < new.timestamp_ns
  pub ticks : cpu_ticks old ≤ cpu_ticks new
  pub minor : old.minflt ≤ new.minflt
  pub major : old.majflt ≤ new.majflt

not_reused : {x : Bool} → x ≡ false → x ≡ true → ⊥
not_reused h k = cc

back_lem : (a b : ℕ) → a ≤ b → b < word → sub_u64 b a + a ≡ b
back_lem a b h l = omega arith

module _ {W : Type 0} ⦃d : Double W⦄ where
  -- The test of the activity.
  abbrev pub is_active : Sample → ActivityConfig W → Delta W → Bool
  is_active new cfg out =
      not (new.state == 90)
      && (at_least new.rss_pages cfg.min_rss_pages
          && (d.le cfg.active_cpu_ratio_threshold out.cpu_ratio
              || (d.le cfg.active_faults_per_sec_threshold out.faults_per_sec
                  || (new.state == 82 || new.state == 68))))

  -- The ways of the comparison.
  pub data Compared (old new : Sample) (cfg : ActivityConfig W)
      : ActivityRc × Delta W → Type 0 where
    refused :
        (rc : ActivityRc) (out : Delta W)
        → (rc ≡ ActivityRc.ok → ⊥)
        → out.valid ≡ false
        → out.active ≡ false
        → (out.pid_reused ≡ true
            → (rc ≡ ActivityRc.pid_reused) × ((old.starttime_ticks == new.starttime_ticks) ≡ false))
        → Compared old new cfg (rc, out)
    done :
        (out : Delta W)
        → AreComparable old new
        → out.valid ≡ true
        → out.cpu_ticks_delta + cpu_ticks old ≡ cpu_ticks new
        → out.minflt_delta + old.minflt ≡ new.minflt
        → out.majflt_delta + old.majflt ≡ new.majflt
        → out.active ≡ is_active new cfg out
        → Compared old new cfg (ActivityRc.ok, out)

  record IsJudged (new : Sample) (cfg : ActivityConfig W) (out result : Delta W) : Type 0 where
    valid : result.valid ≡ true
    active : result.active ≡ is_active new cfg result
    ticks : result.cpu_ticks_delta ≡ out.cpu_ticks_delta
    minor : result.minflt_delta ≡ out.minflt_delta
    major : result.majflt_delta ≡ out.majflt_delta

  judged-IsJudged :
      (new : Sample) (cfg : ActivityConfig W) (out : Delta W)
      → IsJudged new cfg out (judged new cfg out)
  unfolding judged
  judged-IsJudged new cfg out =
      let signal =
        d.le cfg.active_cpu_ratio_threshold out.cpu_ratio
        || (d.le cfg.active_faults_per_sec_threshold out.faults_per_sec
            || (new.state == 82 || new.state == 68)) in
      elim (Bool-cases (new.state == 90)) [
        | inl z ↦
            rw z (record {
              valid = refl;
              active = rw z refl;
              ticks = refl;
              minor = refl;
              major = refl;
            })
        | inr z ↦ elim (Bool-cases (at_least new.rss_pages cfg.min_rss_pages)) [
          | inr n ↦
              rw (z, n)
                (record {
                  valid = refl;
                  active = rw (z, n) refl;
                  ticks = refl;
                  minor = refl;
                  major = refl;
                })
          | inl y ↦ elim (Bool-cases signal) [
            | inl g ↦
                rw (z, y, g)
                  (record {
                    valid = refl;
                    active = rw (z, y, g) refl;
                    ticks = refl;
                    minor = refl;
                    major = refl;
                  })
            | inr g ↦
                rw (z, y, g)
                  (record {
                    valid = refl;
                    active = rw (z, y, g) refl;
                    ticks = refl;
                    minor = refl;
                    major = refl;
                  })
          ]
        ]
      ]

  measured_lem :
      (old new : Sample) (cfg : ActivityConfig W) (clock : ℤ) (out : Delta W)
      → ((measured old new cfg clock out).cpu_ticks_delta ≡ sub_u64 (cpu_ticks new) (cpu_ticks old))
        × (((measured old new cfg clock out).minflt_delta ≡ sub_u64 new.minflt old.minflt)
            × ((measured old new cfg clock out).majflt_delta ≡ sub_u64 new.majflt old.majflt))
  unfolding measured
  measured_lem old new cfg clock out = (refl, (refl, refl))

  -- From the elapsed time on, of samples that agree so far.
  compute_elapsed-Compared :
      (old new : Sample) (cfg : ActivityConfig W) (out : Delta W)
      → AreWords new
      → old.valid ≡ true
      → new.valid ≡ true
      → eq_ℤ old.pid new.pid ≡ true
      → old.starttime_ticks ≡ new.starttime_ticks
      → old.timestamp_ns < new.timestamp_ns
      → out.valid ≡ false
      → out.active ≡ false
      → out.pid_reused ≡ false
      → Compared old new cfg (compute_elapsed old new cfg out)
  unfolding compute_elapsed
  compute_elapsed-Compared old new cfg out w a b p t l v q r =
      let clock =
        if positive new.clock_ticks_per_sec
        then new.clock_ticks_per_sec
        else old.clock_ticks_per_sec in
      let refused : (rc : ActivityRc) → (rc ≡ ActivityRc.ok → ⊥) → Compared old new cfg (rc, out) =
        λ rc n. Compared.refused rc out n v q (λ y. absurd (not_reused r y)) in
      elim (Bool-cases (d.le out.elapsed_sec nought)) [
        | inl y ↦ rw y (refused ActivityRc.non_monotonic_time (λ h. cc))
        | inr e ↦ elim (Bool-cases (ltb (cpu_ticks new) (cpu_ticks old))) [
          | inl y ↦ rw (e, y) (refused ActivityRc.parse (λ h. cc))
          | inr f ↦ elim (Bool-cases (ltb new.minflt old.minflt || ltb new.majflt old.majflt)) [
            | inl y ↦ rw (e, f, y) (refused ActivityRc.parse (λ h. cc))
            | inr g ↦ elim (Bool-cases (positive clock)) [
              | inr y ↦ rw (e, f, g, y) (refused ActivityRc.sysconf (λ h. cc))
              | inl y ↦
                  let m = measured old new cfg clock out in
                  let (ticks, (minor, major)) = measured_lem old new cfg clock out in
                  let result = judged new cfg m in
                  let j = judged-IsJudged new cfg m in
                  let forward : cpu_ticks old ≤ cpu_ticks new = ground arith in
                  let minor_forward : old.minflt ≤ new.minflt = ground arith in
                  let major_forward : old.majflt ≤ new.majflt = ground arith in
                  rw (e, f, g, y)
                    (Compared.done result
                      (record {
                        old_valid = a;
                        new_valid = b;
                        same_pid = p;
                        same_start = t;
                        later = l;
                        ticks = forward;
                        minor = minor_forward;
                        major = major_forward;
                      })
                      j.valid
                      (rw (j.ticks, ticks)
                        (back_lem (cpu_ticks old) (cpu_ticks new) forward (omega arith)))
                      (rw (j.minor, minor)
                        (back_lem old.minflt new.minflt minor_forward w.minflt_word))
                      (rw (j.major, major)
                        (back_lem old.majflt new.majflt major_forward w.majflt_word))
                      j.active)
            ]
          ]
        ]
      ]

  -- A comparison of two samples succeeds only for two valid samples of one process, the same start
  -- time included, in the order of time, with counters that have not gone back. Then the delta is valid,
  -- its three counters are the exact differences, and it is active exactly if the process is no zombie,
  -- has pages enough, and uses the processor, faults, or runs. In every other case the delta is neither
  -- valid nor active, and it tells of a reused pid only if the start times differ.
  pub compute_delta-Compared :
      (old new : Sample) (cfg : ActivityConfig W)
      → AreWords new
      → Compared old new cfg (compute_delta old new cfg)
  unfolding compute_delta
  compute_delta-Compared old new cfg w =
      let begun = record delta_reset {
        pid = new.pid;
        elapsed_sec = d.ratio (sub_u64 new.timestamp_ns old.timestamp_ns) 1000000000;
      } in
      elim (Bool-cases old.valid) [
        | inr n ↦ simp n (
            Compared.refused ActivityRc.invalid_arg delta_reset (λ h. cc) refl refl
              (λ y. absurd (not_reused refl y)))
        | inl a ↦ elim (Bool-cases new.valid) [
          | inr n ↦
              simp (a, n)
                (Compared.refused ActivityRc.invalid_arg delta_reset (λ h. cc) refl refl
                  (λ y. absurd (not_reused refl y)))
          | inl b ↦ elim (Bool-cases (eq_ℤ old.pid new.pid)) [
            | inr n ↦
                simp (a, b, n)
                  (Compared.refused ActivityRc.invalid_arg delta_reset (λ h. cc) refl refl
                    (λ y. absurd (not_reused refl y)))
            | inl p ↦ elim (Bool-cases (old.starttime_ticks == new.starttime_ticks)) [
              | inr n ↦
                  simp (a, b, p, n)
                    (Compared.refused ActivityRc.pid_reused _ (λ h. cc) refl refl (λ y. (refl, n)))
              | inl t ↦ elim (Bool-cases (leb new.timestamp_ns old.timestamp_ns)) [
                | inl y ↦
                    simp (a, b, p, t, y)
                      (Compared.refused ActivityRc.non_monotonic_time
                        (record delta_reset { pid = new.pid }) (λ h. cc) refl refl
                        (λ y. absurd (not_reused refl y)))
                | inr l ↦
                    simp (a, b, p, t, l)
                      (compute_elapsed-Compared old new cfg begun w a b p (ground arith)
                        (ground arith) refl refl refl)
              ]
            ]
          ]
        ]
      ]
