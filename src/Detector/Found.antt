-- ===== src/Detector/Found.antt =====
-- How often a pid is found: among the processes that can be found, and among what each step passes on.
use mathlib.Core.List.{Perm, foldr}
use mathlib.Core.List.Perm
use cgroup_research.Prelude.{
  ℕ, zero, suc, ◌≤◌, ◌≡◌, refl, ap, ap₂, inl, inr, Bool, true, not, ◌&&◌, ◌||◌, Option, none, some,
  List, [], ◌∷◌, map, Pid, eq_ℤ, take, if◌then◌else◌, arith, Bool-cases,
}
use cgroup_research.Prelude.Double.{Double}
use cgroup_research.AddrTranslate.Translate.{Descriptors}
use cgroup_research.Activity.Delta.{ActivityRc, Sample, compute_delta}
use cgroup_research.Activity.Sampler.{Answers, sample_reset, sample_now}
use cgroup_research.Detector.Types.{is_normal, ProcessState, DetectorConfig, DetectorStats, Active}
use cgroup_research.Detector.Collect.{
  activity_is_ok, prepend, Collected, collect_sampled, collect_all,
}

-- How many elements pass a test.
abbrev pub times : {A : Type 0} → (A → Bool) → List A → ℕ
times test xs = foldr (λ a n. if test a then suc n else n) 0 xs

-- The test of a process with this pid that the detector can find: it is alive, normal, and has been
-- sampled before.
abbrev pub is_observed : Pid → ProcessState → Bool
is_observed pid p = p.alive && is_normal p.role && p.has_activity_sample && eq_ℤ pid p.pid

module _ {W : Type 0} where
  abbrev pub has_pid : Pid → Active W → Bool
  has_pid pid a = eq_ℤ pid a.pid

counted_comm :
    {A : Type 0} (test : A → Bool) (a b : A) (n : ℕ)
    → (if test a then suc (if test b then suc n else n) else (if test b then suc n else n))
      ≡ (if test b then suc (if test a then suc n else n) else (if test a then suc n else n))
counted_comm test a b n = ground arith

ℕ_IsSet : IsSet ℕ
ℕ_IsSet = hlevel

-- Sorting changes no number of this kind.
pub times-sort :
    {A : Type 0} (test : A → Bool) {xs ys : List A} → Perm xs ys → times test xs ≡ times test ys
times-sort test p =
    Perm.foldr-eq ℕ_IsSet (λ a n. if test a then suc n else n) (counted_comm test) p 0

pub times-take :
    {A : Type 0} (test : A → Bool) (n : ℕ) (xs : List A) → times test (take n xs) ≤ times test xs
times-take test zero xs = omega arith
times-take test (suc n) [] = omega arith
times-take test (suc n) (x ∷ xs) = ground (arith, times-take test n xs)

module _ {W : Type 0} ⦃d : Double W⦄ where
  -- The test of an active process that passes the thresholds of the configuration.
  abbrev pub is_worthy : DetectorConfig W → Active W → Bool
  is_worthy cfg a = a.delta.active && not (d.lt a.delta.total_score cfg.activity_score_threshold)

  -- What one process may add to the active ones.
  pub data FoundAt (cfg : DetectorConfig W) (p : ProcessState) : Option (Active W) → Type 0 where
    not_found : FoundAt cfg p none
    found :
        (a : Active W)
        → a.pid ≡ p.pid
        → p.has_activity_sample ≡ true
        → is_worthy cfg a ≡ true
        → FoundAt cfg p (some a)

  collect_sampled-FoundAt :
      (cfg : DetectorConfig W) (p : ProcessState) (stats : Option DetectorStats)
      (sampled : ActivityRc) (now : Sample)
      → let (p', active, stats') = collect_sampled cfg p stats sampled now in
        FoundAt cfg p active × (p'.pid ≡ p.pid) × (p'.role ≡ p.role)
  unfolding collect_sampled
  collect_sampled-FoundAt cfg p stats sampled now =
      let (compared, delta) = compute_delta p.activity_sample now cfg.activity_config in
      let low = d.lt delta.total_score cfg.activity_score_threshold in
      elim (Bool-cases (activity_is_ok sampled)) [
        | inr n ↦ rw n (FoundAt.not_found, refl, refl)
        | inl s ↦ elim (Bool-cases p.has_activity_sample) [
          | inr n ↦ simp (s, n) (FoundAt.not_found, refl, refl)
          | inl h ↦ elim (Bool-cases (activity_is_ok compared)) [
            | inr n ↦ simp (s, h, n) (FoundAt.not_found, refl, refl)
            | inl c ↦ elim (Bool-cases (not delta.active || low)) [
              | inl n ↦ simp (s, h, c, n) (FoundAt.not_found, refl, refl)
              | inr n ↦ simp (s, h, c, n) (FoundAt.found _ refl h (ground arith), refl, refl)
            ]
          ]
        ]
      ]

  prepend-times :
      (pid : Pid) (cfg : DetectorConfig W) (p : ProcessState) {o : Option (Active W)}
      (xs : List (Active W)) (n : ℕ)
      → FoundAt cfg p o
      → p.alive ≡ true
      → is_normal p.role ≡ true
      → times (has_pid pid) xs ≤ n
      → times (has_pid pid) (prepend o xs) ≤ (if is_observed pid p then suc n else n)
  prepend-times pid cfg p xs n FoundAt.not_found l r h = ground arith
  prepend-times pid cfg p xs n (FoundAt.found a e s w) l r h = simp (e, l, r, s) (ground arith)

  prepend-unworthy :
      (cfg : DetectorConfig W) (p : ProcessState) {o : Option (Active W)} (xs : List (Active W))
      → FoundAt cfg p o
      → times (λ a. not (is_worthy cfg a)) xs ≡ 0
      → times (λ a. not (is_worthy cfg a)) (prepend o xs) ≡ 0
  prepend-unworthy cfg p xs FoundAt.not_found h = h
  prepend-unworthy cfg p xs (FoundAt.found a e s w) h = rw w h

  -- What the loop over the processes leaves.
  pub record Gathered (cfg : DetectorConfig W) (ps : List ProcessState) (c : Collected W)
      : Type 0 where
    pub times_found : (pid : Pid) → times (has_pid pid) c.active ≤ times (is_observed pid) ps
    pub worthy : times (λ a. not (is_worthy cfg a)) c.active ≡ 0
    pub same_pids : map (λ p. p.pid) c.processes ≡ map (λ p. p.pid) ps
    pub same_roles : map (λ p. p.role) c.processes ≡ map (λ p. p.role) ps

  pub collect_all-Gathered :
      (answers : ℕ → Answers) (cfg : DetectorConfig W) (i : ℕ) (ps : List ProcessState)
      (stats : Option DetectorStats) (ds : Descriptors)
      → Gathered cfg ps (collect_all answers cfg i ps stats ds)
  unfolding collect_all
  collect_all-Gathered answers cfg i [] stats ds = record {
    times_found = λ pid. omega arith;
    worthy = refl;
    same_pids = refl;
    same_roles = refl;
  }
  collect_all-Gathered answers cfg i (p ∷ ps) stats ds =
      let (sampled, now, ds') = sample_now (answers i) p.pid sample_reset ds in
      let (p', active, stats') = collect_sampled cfg p stats sampled now in
      let (at, same_pid, same_role) = collect_sampled-FoundAt cfg p stats sampled now in
      let skipped = collect_all-Gathered answers cfg (suc i) ps stats ds in
      let rest = collect_all-Gathered answers cfg (suc i) ps stats' ds' in
      elim (Bool-cases (not p.alive || not (is_normal p.role))) [
        | inl off ↦ rw off (record {
          times_found = λ pid. ground (arith, skipped.times_found pid);
          worthy = skipped.worthy;
          same_pids = ap (λ xs. p.pid ∷ xs) skipped.same_pids;
          same_roles = ap (λ xs. p.role ∷ xs) skipped.same_roles;
        })
        | inr on ↦ rw on (record {
          times_found = λ pid.
              prepend-times pid cfg p _ _ at (ground arith) (ground arith) (rest.times_found pid);
          worthy = prepend-unworthy cfg p _ at rest.worthy;
          same_pids = ap₂ (λ x xs. x ∷ xs) same_pid rest.same_pids;
          same_roles = ap₂ (λ x xs. x ∷ xs) same_role rest.same_roles;
        })
      ]
