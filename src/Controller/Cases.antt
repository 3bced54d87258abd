-- ===== src/Controller/Cases.antt =====
-- The ways a call of `apply_candidates` or `release_all` can go, and the array that it leaves.
use cgroup_research.Prelude.{
  ℕ, ◌≡◌, refl, ◌≢◌, ◌⊎◌, inl, inr, Option, none, some, List, [], ◌∷◌, ◌++◌, ◌≤◌, arith, length,
  Bool-cases,
}
use cgroup_research.Prelude.Double.{Double}
use cgroup_research.Cgroup.Interface.{Cgroups}
use cgroup_research.Controller.Types.{Rc, Candidate, Record, Controller, Stats}
use cgroup_research.Controller.Config.{controller_now_ns}
use cgroup_research.Controller.Candidates.{
  Span, span_items, find_record, set_record, prevalidate_candidates,
}
use cgroup_research.Controller.Record.{Effects, map_stats, stats_reset, see_candidate, sweep_record}
use cgroup_research.Controller.Pairs.{Room-Pairwise, clear_seen-Pairwise}
use cgroup_research.Controller.Room.{Room}
use cgroup_research.Controller.Loops.{see_all_rule}
use cgroup_research.Controller.Apply.{
  ended, new_record, Outcome, start, apply_clocked, apply_validated, clear_seen, for_records,
  apply_at, apply_candidates,
}

module _ {W World : Type 0} ⦃d : Double W⦄ (cgroups : Cgroups World) where
  -- A refused call returns an error, and leaves the controller and the world as they were.
  pub record Refused (ctl : Controller W) (w : World) (out : Outcome W World) : Type 0 where
    pub failed : out.rc ≢ Rc.ok
    pub same_controller : out.controller ≡ some ctl
    pub same_world : out.world ≡ w

  pub record Accepted (ctl : Controller W) (reading : Option (ℕ × ℕ))
      (candidates : Span (Candidate W)) (fresh : Option (Stats W)) (w : World)
      (out : Outcome W World) : Type 0 where
    pub now : ℕ
    pub counted : Option (Stats W)
    pub counts :
        counted
        ≡ map_stats (λ s. record s { candidate_count = length (span_items candidates) }) fresh
    pub clock : controller_now_ns ctl.cfg reading ≡ some now
    pub checked : prevalidate_candidates ctl candidates ≡ Rc.ok
    pub applied : out ≡ apply_at cgroups ctl now (span_items candidates) (start counted w)

  module _ (ctl : Controller W) (reading : Option (ℕ × ℕ)) (candidates : Span (Candidate W))
      (stats : Option (Stats W)) (w : World) where
    clocked-cases :
        (t : Option ℕ)
        → controller_now_ns ctl.cfg reading ≡ t
        → prevalidate_candidates ctl candidates ≡ Rc.ok
        → let out = apply_clocked cgroups ctl t candidates stats w in
          Refused ctl w out ⊎ Accepted ctl reading candidates stats w out
    unfolding apply_clocked
    clocked-cases none clock checked = inl (ground arith)
    clocked-cases (some now) clock checked = inr (record {
      now = now;
      counted =
          map_stats (λ s. record s { candidate_count = length (span_items candidates) }) stats;
      counts = refl;
      clock = clock;
      checked = checked;
      applied = refl;
    })

    validated-cases :
        (rc : Rc)
        → prevalidate_candidates ctl candidates ≡ rc
        → let out = apply_validated cgroups rc ctl reading candidates stats w in
          Refused ctl w out ⊎ Accepted ctl reading candidates stats w out
    unfolding apply_validated
    validated-cases Rc.ok checked = clocked-cases (controller_now_ns ctl.cfg reading) refl checked
    validated-cases _ checked = inl (ground arith)

  -- A call refuses, or applies the candidates at the time of its clock.
  pub apply_candidates-cases :
      (ctl : Controller W) (reading : Option (ℕ × ℕ)) (candidates : Span (Candidate W))
      (stats : Option (Stats W)) (w : World)
      → let out = apply_candidates cgroups (some ctl) reading candidates stats w in
        Refused ctl w out
        ⊎ Accepted ctl reading candidates (map_stats (λ s. stats_reset) stats) w out
  unfolding apply_candidates
  apply_candidates-cases ctl reading candidates stats w = elim (Bool-cases ctl.initialized) [
    | inl live ↦ simp live (
        validated-cases ctl reading candidates (map_stats (λ s. stats_reset) stats) w
          (prevalidate_candidates ctl candidates) refl)
    | inr idle ↦ inl (ground arith)
  ]

module _ {W World : Type 0} ⦃d : Double W⦄ (cgroups : Cgroups World) (ctl : Controller W) (now : ℕ)
    (P : List (Candidate W) → List (Record W) → Effects W World → Type 0)
    (on_old : (c : Candidate W) (cs : List (Candidate W)) (rs : List (Record W)) (r : Record W)
        (e : Effects W World)
      → find_record rs c.pid ≡ some r
      → P (c ∷ cs) rs e
      → let (r', e') = see_candidate cgroups ctl.cfg now c r e in P cs (set_record rs c.pid r') e')
    (on_new : (c : Candidate W) (cs : List (Candidate W)) (rs : List (Record W))
        (e : Effects W World)
      → find_record rs c.pid ≡ none
      → P (c ∷ cs) rs e
      → let (r', e') = see_candidate cgroups ctl.cfg now c (new_record c.pid now) e in
        P cs (rs ++ (r' ∷ [])) e') where
  -- With room for every candidate an interval is the loop over the candidates, which keeps what its
  -- body keeps, and then the sweep over the records.
  pub apply_at_rule :
      (cs : List (Candidate W)) (e : Effects W World)
      → Room ctl.record_cap ctl.records cs
      → P cs (clear_seen ctl.records) e
      → (rs : List (Record W)) × (seen : Effects W World) × (apply_at cgroups ctl now cs e
          ≡ ended ctl (for_records (sweep_record cgroups ctl.cfg now) rs seen))
        × (length rs ≤ ctl.record_cap)
        × P [] rs seen
  unfolding apply_at
  apply_at_rule cs e m h =
      let cleared = clear_seen ctl.records in
      let pass = clear_seen-Pairwise (λ a b. b.pid ≡ a.pid) (λ r. refl) ctl.records in
      let room = Room-Pairwise _ (λ a b q. q) ctl.record_cap ctl.records cleared cs pass m in
      let (all, full, kept) =
        see_all_rule cgroups ctl.cfg ctl.record_cap now P on_old on_new cs cleared e room h in
      (_, _, rw all refl, omega (arith, full.space), kept)
