-- ===== src/Controller/Persistence.antt =====
-- What a call keeps of every record: a record is never dropped, and a minimum duration that runs is
-- waited for.
use cgroup_research.Prelude.{
  ℕ, ◌≡◌, refl, sym, ◌∙◌, inl, inr, false, Option, some, List, [], ◌∷◌, ◌++◌, Pid, eq_ℤ, eq_ℤ_iff,
  arith, Bool-cases, some_inj, length, ◌<◌,
}
use mathlib.Core.Path.{subst}
use cgroup_research.Prelude.Double.{Double}
use cgroup_research.Cgroup.Interface.{Cgroups}
use cgroup_research.Controller.Types.{State, Candidate, Config, Record, Controller, Stats}
use cgroup_research.Prelude.Word.{word}
use cgroup_research.Controller.Config.{elapsed_at_least, controller_now_ns}
use cgroup_research.Controller.Invariant.{IsValid}
use cgroup_research.Controller.Cases.{apply_candidates-cases, apply_at_rule}
use cgroup_research.Controller.Candidates.{Span, span_items, find_record, set_record}
use cgroup_research.Controller.Record.{Effects, see_candidate, sweep_record}
use cgroup_research.Controller.Apply.{start, clear_seen, for_records, apply_candidates}
use cgroup_research.Controller.Lookup.{
  find_record-set_record_ne, find_record-set_record_self, find_record-append, find_record-pid,
}
use cgroup_research.Controller.Room.{prevalidate_candidates-Checked}
use cgroup_research.Controller.Pairs.{Pairwise, clear_seen-Pairwise}
use cgroup_research.Controller.Loops.{for_records-Pairwise}

-- Every record that is found before is found after, and related to it.
abbrev pub Kept :
    {W : Type 0} → (Record W → Record W → Type 0) → List (Record W) → List (Record W) → Type 0
Kept Rel rs rs' =
    (q : Pid) (r : Record _)
    → find_record rs q ≡ some r
    → (r' : Record _) × (find_record rs' q ≡ some r') × Rel r r'

-- A relation between a record and what becomes of it, which keeps the pid.
module _ {W : Type 0} (Rel : Record W → Record W → Type 0)
    (rel_trans : (a b c : Record W) → Rel a b → Rel b c → Rel a c)
    (rel_pid : (a b : Record W) → Rel a b → b.pid ≡ a.pid) where
  pub Kept-trans : (xs ys zs : List (Record W)) → Kept Rel xs ys → Kept Rel ys zs → Kept Rel xs zs
  Kept-trans xs ys zs h k q r f =
      let (r', f', x) = h q r f in
      let (r'', f'', y) = k q r' f' in (r'', f'', rel_trans r r' r'' x y)

  pub Kept-Pairwise : (rs rs' : List (Record W)) → Pairwise Rel rs rs' → Kept Rel rs rs'
  unfolding find_record
  Kept-Pairwise [] [] p q r f = cc
  Kept-Pairwise [] (y ∷ ys) p q r f = absurd p
  Kept-Pairwise (x ∷ xs) [] p q r f = absurd p
  Kept-Pairwise (x ∷ xs) (y ∷ ys) p q r f = elim (Bool-cases (eq_ℤ x.pid q)) [
    | inl e ↦
        let same : x ≡ r = ground arith in
        (
          y,
          ground (arith, rel_pid x y p.0, eq_ℤ_iff x.pid q, eq_ℤ_iff y.pid q),
          subst (λ t. Rel t y) same p.0,
        )
    | inr e ↦
        let (r', f', h) = Kept-Pairwise xs ys p.1 q r (ground arith) in
        (r', ground (arith, rel_pid x y p.0, eq_ℤ_iff x.pid q, eq_ℤ_iff y.pid q), h)
  ]

  pub Kept-set_record :
      (rs : List (Record W)) (pid : Pid) (r v : Record W)
      → find_record rs pid ≡ some r
      → Rel r v
      → ((a : Record W) → Rel a a)
      → Kept Rel rs (set_record rs pid v)
  Kept-set_record rs pid r v f h rel_refl q a g = elim (Bool-cases (eq_ℤ pid q)) [
    | inl e ↦
        let here : pid ≡ q = (eq_ℤ_iff pid q).0 e in
        let same : r ≡ a = ground arith in
        let kept_pid = rel_pid r v h ∙ find_record-pid rs pid r f in
        (
          v,
          subst (λ t. find_record (set_record rs pid v) t ≡ some v) here
              (find_record-set_record_self rs pid r v kept_pid f),
          subst (λ t. Rel t v) same h,
        )
    | inr e ↦ (
      a,
      find_record-set_record_ne rs pid q v (rel_pid r v h ∙ find_record-pid rs pid r f) e ∙ g,
      rel_refl a,
    )
  ]

  pub Kept-append :
      (rs : List (Record W)) (v : Record W)
      → ((a : Record W) → Rel a a)
      → Kept Rel rs (rs ++ (v ∷ []))
  Kept-append rs v rel_refl q a g = (a, rw (find_record-append rs v q, g), rel_refl a)

-- What an interval keeps of a record: its pid, when it was first seen, and, while it is throttled
-- for less than the minimum duration or cooling down for less than the cooldown, its state and the
-- time at which it entered it.
pub record Waits {W : Type 0} (cfg : Config W) (now : ℕ) (r r' : Record W) : Type 0 where
  pub same_pid : r'.pid ≡ r.pid
  pub same_first : r'.first_seen_ns ≡ r.first_seen_ns
  pub throttled_waits :
      r.state ≡ State.throttled
      → elapsed_at_least now r.state_entered_ns cfg.min_throttle_duration_ms ≡ false
      → (r'.state ≡ State.throttled) × (r'.state_entered_ns ≡ r.state_entered_ns)
  pub cooldown_waits :
      r.state ≡ State.cooldown
      → elapsed_at_least now r.state_entered_ns cfg.cooldown_duration_ms ≡ false
      → (r'.state ≡ State.cooldown) × (r'.state_entered_ns ≡ r.state_entered_ns)

module _ {W : Type 0} (cfg : Config W) (now : ℕ) where
  Waits-refl : (r : Record W) → Waits cfg now r r
  Waits-refl r = ground arith

  Waits-trans : (a b c : Record W) → Waits cfg now a b → Waits cfg now b c → Waits cfg now a c
  Waits-trans a b c h k = ground arith

module _ {W World : Type 0} ⦃d : Double W⦄ (cgroups : Cgroups World) (cfg : Config W)
    (now : ℕ) where
  see_candidate-Waits :
      (c : Candidate W) (r : Record W) (e : Effects W World)
      → Waits cfg now r (see_candidate cgroups cfg now c r e).0
  unfolding see_candidate
  see_candidate-Waits c r e = ground arith

  sweep_record-Waits :
      (r : Record W) (e : Effects W World) → Waits cfg now r (sweep_record cgroups cfg now r e).0
  unfolding sweep_record
  sweep_record-Waits r e = ground arith

  Kept-old :
      (first : List (Record W)) (c : Candidate W) (rs : List (Record W)) (r : Record W)
      (e : Effects W World)
      → find_record rs c.pid ≡ some r
      → Kept (Waits cfg now) first rs
      → Kept (Waits cfg now) first (set_record rs c.pid (see_candidate cgroups cfg now c r e).0)
  Kept-old first c rs r e f k =
      let r' = (see_candidate cgroups cfg now c r e).0 in
      Kept-trans (Waits cfg now) (Waits-trans cfg now) (λ a b h. h.same_pid) first rs
        (set_record rs c.pid r') k
        (Kept-set_record (Waits cfg now) (Waits-trans cfg now) (λ a b h. h.same_pid) rs c.pid r r' f
          (see_candidate-Waits c r e) (Waits-refl cfg now))

  Kept-new :
      (first rs : List (Record W)) (v : Record W)
      → Kept (Waits cfg now) first rs
      → Kept (Waits cfg now) first (rs ++ (v ∷ []))
  Kept-new first rs v k =
      Kept-trans (Waits cfg now) (Waits-trans cfg now) (λ a b h. h.same_pid) first rs
        (rs ++ (v ∷ [])) k
        (Kept-append (Waits cfg now) (Waits-trans cfg now) (λ a b h. h.same_pid) rs v
          (Waits-refl cfg now))

  Kept-sweep :
      (first rs : List (Record W)) (e : Effects W World)
      → Kept (Waits cfg now) first rs
      → Kept (Waits cfg now) first (for_records (sweep_record cgroups cfg now) rs e).0
  Kept-sweep first rs e k =
      let rs' = (for_records (sweep_record cgroups cfg now) rs e).0 in
      Kept-trans (Waits cfg now) (Waits-trans cfg now) (λ a b h. h.same_pid) first rs rs' k
        (Kept-Pairwise (Waits cfg now) (Waits-trans cfg now) (λ a b h. h.same_pid) rs rs'
          (for_records-Pairwise (sweep_record cgroups cfg now) (Waits cfg now) sweep_record-Waits rs
            e))

  Kept-clear : (rs : List (Record W)) → Kept (Waits cfg now) rs (clear_seen rs)
  Kept-clear rs =
      Kept-Pairwise (Waits cfg now) (Waits-trans cfg now) (λ a b h. h.same_pid) rs (clear_seen rs)
        (clear_seen-Pairwise (Waits cfg now) (λ r. ground arith) rs)

-- Every record of a valid controller is still there after a call, and waits: a throttled record is
-- not released before the minimum duration, and a record in cooldown is not throttled again before
-- the cooldown has passed, whatever the candidates ask for.
pub apply_candidates-Waits :
    {W World : Type 0} ⦃d : Double W⦄ (cgroups : Cgroups World) (ctl : Controller W)
    (reading : Option (ℕ × ℕ)) (candidates : Span (Candidate W)) (stats : Option (Stats W))
    (w : World) (now : ℕ)
    → IsValid ctl
    → length (span_items candidates) < word
    → controller_now_ns ctl.cfg reading ≡ some now
    → let out = apply_candidates cgroups (some ctl) reading candidates stats w in
      ((ctl' : Controller W) × (out.controller ≡ some ctl')
        × Kept (Waits ctl.cfg now) ctl.records ctl'.records)
apply_candidates-Waits cgroups ctl reading candidates stats w now v l t =
    elim (apply_candidates-cases cgroups ctl reading candidates stats w) [
      | inl refused ↦ (ctl, refused.same_controller, λ q r f. (r, f, Waits-refl ctl.cfg now r))
      | inr accepted ↦
          let cfg = ctl.cfg in
          let same : accepted.now ≡ now = some_inj accepted.now now (sym accepted.clock ∙ t) in
          let checked =
            prevalidate_candidates-Checked ctl candidates v.fits v.bounded l accepted.checked in
          let (rs, seen, outcome, fits, kept) =
            apply_at_rule cgroups ctl accepted.now
              (λ cs rs e. Kept (Waits cfg accepted.now) ctl.records rs)
              (λ c cs rs r e. Kept-old cgroups cfg accepted.now ctl.records c rs r e)
              (λ c cs rs e f. Kept-new cgroups cfg accepted.now ctl.records rs _)
              (span_items candidates) (start accepted.counted w) checked.room
              (Kept-clear cgroups cfg accepted.now ctl.records) in
          let swept = Kept-sweep cgroups cfg accepted.now ctl.records rs seen kept in
          let final = (for_records (sweep_record cgroups cfg accepted.now) rs seen).0 in
          rw (accepted.applied, outcome)
            (_, refl, subst (λ t. Kept (Waits cfg t) ctl.records final) same swept)
    ]
