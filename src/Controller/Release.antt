-- ===== src/Controller/Release.antt =====
-- `throttle_controller_release_all`, `throttle_controller_init` and `throttle_controller_destroy`.
use cgroup_research.Prelude.{
  ℕ, ◌≡◌, refl, ◌≢◌, ◌⊎◌, inl, inr, false, Option, none, some, List, [], ◌∷◌, All, arith,
  Bool-cases,
}
use cgroup_research.Prelude.Double.{Double}
use cgroup_research.Cgroup.Interface.{Cgroups}
use cgroup_research.Controller.Types.{Rc, Config, Record, Controller, Stats, is_throttled}
use cgroup_research.Controller.Config.{controller_now_ns}
use cgroup_research.Controller.Record.{Effects, map_stats, stats_reset, release_record_pid}
use cgroup_research.Controller.Apply.{
  Outcome, start, ended, release_throttled, for_records, release_at, release_all,
}
use cgroup_research.Controller.Pairs.{Pairwise-All, Distinct-Pairwise, length-Pairwise}
use cgroup_research.Controller.Loops.{for_records-Pairwise}
use cgroup_research.Controller.Cases.{Refused}
use cgroup_research.Controller.Invariant.{
  IsValid, WellFormed, Same, Same-WellFormed, release_throttled-Same,
}
use cgroup_research.Controller.Membership.{InStep, for_records-Agrees, release_throttled-IsFaithful}

module _ {W World : Type 0} ⦃d : Double W⦄ (cgroups : Cgroups World) where
  -- What a call that is not refused does: one pass over the records.
  record Passed (ctl : Controller W) (w : World) (out : Outcome W World) : Type 0 where
    now : ℕ
    fresh : Option (Stats W)
    passed :
        out
        ≡ ended ctl
            (for_records (release_throttled cgroups ctl.cfg now) ctl.records (start fresh w))

  release_at-cases :
      (ctl : Controller W) (t : Option ℕ) (stats : Option (Stats W)) (w : World)
      → let out = release_at cgroups ctl t stats w in Refused cgroups ctl w out ⊎ Passed ctl w out
  unfolding release_at
  release_at-cases ctl none stats w = inl (ground arith)
  release_at-cases ctl (some now) stats w = inr (record { now = now; fresh = stats; passed = refl })

  release_all-cases :
      (ctl : Controller W) (reading : Option (ℕ × ℕ)) (stats : Option (Stats W)) (w : World)
      → let out = release_all cgroups (some ctl) reading stats w in
        Refused cgroups ctl w out ⊎ Passed ctl w out
  unfolding release_all
  release_all-cases ctl reading stats w = elim (Bool-cases ctl.initialized) [
    | inl live ↦ simp live (
        release_at-cases ctl (controller_now_ns ctl.cfg reading)
          (map_stats (λ s. stats_reset) stats) w)
    | inr idle ↦ inl (ground arith)
  ]

  -- Every call of `release_all` on a valid controller leaves a valid controller.
  pub release_all-IsValid :
      (ctl : Controller W) (reading : Option (ℕ × ℕ)) (stats : Option (Stats W)) (w : World)
      → IsValid ctl
      → let out = release_all cgroups (some ctl) reading stats w in
        ((ctl' : Controller W) × (out.controller ≡ some ctl') × IsValid ctl')
  release_all-IsValid ctl reading stats w v = elim (release_all-cases ctl reading stats w) [
    | inl refused ↦ (ctl, refused.same_controller, v)
    | inr p ↦
        let body = release_throttled cgroups ctl.cfg p.now in
        let rs = (for_records body ctl.records (start p.fresh w)).0 in
        let pass =
          for_records-Pairwise body Same (release_throttled-Same cgroups ctl.cfg p.now) ctl.records
            (start p.fresh w) in
        rw p.passed (
          _,
          refl,
          record {
            fits = omega (arith, v, length-Pairwise Same (λ a b h. h.same_pid) ctl.records rs pass);
            bounded = v.bounded;
            distinct = Distinct-Pairwise Same (λ a b h. h.same_pid) ctl.records rs pass v.distinct;
            well_formed =
                Pairwise-All Same WellFormed WellFormed Same-WellFormed ctl.records rs pass
                  v.well_formed;
          },
        )
  ]

  -- Where the moves are real, `release_all` keeps a valid controller in step with the cgroup tree.
  pub release_all-InStep :
      (ctl : Controller W) (reading : Option (ℕ × ℕ)) (stats : Option (Stats W)) (w : World)
      → ctl.cfg.dry_run ≡ false
      → IsValid ctl
      → InStep cgroups ctl w
      → let out = release_all cgroups (some ctl) reading stats w in
        ((ctl' : Controller W) × (out.controller ≡ some ctl') × InStep cgroups ctl' out.world)
  release_all-InStep ctl reading stats w live v a = elim (release_all-cases ctl reading stats w) [
    | inl refused ↦ (ctl, refused.same_controller, rw refused.same_world a)
    | inr p ↦ rw p.passed (
      _,
      refl,
      for_records-Agrees cgroups ctl.cfg (release_throttled cgroups ctl.cfg p.now)
          (release_throttled-IsFaithful cgroups ctl.cfg p.now live) ctl.records (start p.fresh w)
          v.distinct a,
    )
  ]

  release_throttled-failed :
      (cfg : Config W) (now : ℕ) (r : Record W) (e : Effects W World)
      → e.overall_rc ≢ Rc.ok
      → (release_throttled cgroups cfg now r e).1.overall_rc ≢ Rc.ok
  unfolding release_throttled release_record_pid
  release_throttled-failed cfg now r e h = ground arith

  release_throttled-released :
      (cfg : Config W) (now : ℕ) (r : Record W) (e : Effects W World)
      → (is_throttled (release_throttled cgroups cfg now r e).0.state ≡ false)
        ⊎ ((release_throttled cgroups cfg now r e).1.overall_rc ≢ Rc.ok)
  unfolding release_throttled release_record_pid
  release_throttled-released cfg now r e = ground arith

  -- An error of one move is not lost in the rest of the pass.
  for_records-failed :
      (cfg : Config W) (now : ℕ) (rs : List (Record W)) (e : Effects W World)
      → e.overall_rc ≢ Rc.ok
      → (for_records (release_throttled cgroups cfg now) rs e).1.overall_rc ≢ Rc.ok
  unfolding for_records
  for_records-failed cfg now [] e h = h
  for_records-failed cfg now (r ∷ rs) e h =
      for_records-failed cfg now rs (release_throttled cgroups cfg now r e).1
        (release_throttled-failed cfg now r e h)

  for_records-released :
      (cfg : Config W) (now : ℕ) (rs : List (Record W)) (e : Effects W World)
      → (for_records (release_throttled cgroups cfg now) rs e).1.overall_rc ≡ Rc.ok
      → All
          (λ r. is_throttled r.state ≡ false)
          (for_records (release_throttled cgroups cfg now) rs e).0
  unfolding for_records
  for_records-released cfg now [] e h = tt
  for_records-released cfg now (r ∷ rs) e h = (
    elim (release_throttled-released cfg now r e) [
      | inl done ↦ done
      | inr failed ↦
          absurd (for_records-failed cfg now rs (release_throttled cgroups cfg now r e).1 failed h)
    ],
    for_records-released cfg now rs (release_throttled cgroups cfg now r e).1 h,
  )

  -- Where `release_all` returns success, no record is left throttled.
  pub release_all-released :
      (ctl : Controller W) (reading : Option (ℕ × ℕ)) (stats : Option (Stats W)) (w : World)
      → (release_all cgroups (some ctl) reading stats w).rc ≡ Rc.ok
      → let out = release_all cgroups (some ctl) reading stats w in
        ((ctl' : Controller W) × (out.controller ≡ some ctl')
          × All (λ r. is_throttled r.state ≡ false) ctl'.records)
  release_all-released ctl reading stats w h = elim (release_all-cases ctl reading stats w) [
    | inl refused ↦ absurd (refused.failed h)
    | inr p ↦
        let success : _ = rw p.passed at h in
        rw p.passed
          (_, refl, for_records-released ctl.cfg p.now ctl.records (start p.fresh w) success)
  ]
