-- ===== src/Controller/Membership.antt =====
-- The controller's states against the cgroup tree: a throttled record's pid was last moved into the
-- throttled group, and that of a record in cooldown into the normal one.
use cgroup_research.Prelude.{
  ℕ, ◌≡◌, refl, ◌∙◌, ◌<◌, false, Option, none, some, List, [], ◌∷◌, ◌++◌, Pid, eq_ℤ, eq_ℤ_refl,
  eq_ℤ_sym, All, All-append, length, arith, inl, inr,
}
use cgroup_research.Prelude.Word.{word}
use cgroup_research.Prelude.Double.{Double}
use cgroup_research.Cgroup.Interface.{Cgroups}
use cgroup_research.Controller.Types.{State, Candidate, Config, Record, Controller, Stats}
use cgroup_research.Controller.Candidates.{Span, span_items, find_record, set_record}
use cgroup_research.Controller.Record.{
  Effects, move_pid, see_candidate, sweep_record, release_record_pid,
}
use cgroup_research.Controller.Apply.{
  start, new_record, clear_seen, for_records, release_throttled, apply_candidates,
}
use cgroup_research.Controller.Lookup.{
  Absent, Distinct, All-find_record, All-set_record, All-Absent, Absent-find_record,
  find_record-pid,
}
use cgroup_research.Controller.Transitions.{see_candidate-pid, sweep_record-pid}
use cgroup_research.Controller.Room.{prevalidate_candidates-Checked}
use cgroup_research.Controller.Invariant.{
  IsValid, release_throttled-Same, Sound, Sound-old, Sound-new, Sound-clear_seen,
}
use cgroup_research.Controller.Pairs.{Pairwise-All, clear_seen-Pairwise}
use cgroup_research.Controller.Loops.{new_record-pid}
use cgroup_research.Controller.Cases.{apply_candidates-cases, apply_at_rule}

module _ {W World : Type 0} ⦃d : Double W⦄ (cgroups : Cgroups World) (cfg : Config W) where
  open cgroups use {group_of, group_of-moved, group_of-refused}

  -- What the cgroup tree has acknowledged agrees with the state of a record.
  pub record Agrees (w : World) (r : Record W) : Type 0 where
    pub throttled_there : r.state ≡ State.throttled → group_of w r.pid ≡ some cfg.throttled_group
    pub released_there : r.state ≡ State.cooldown → group_of w r.pid ≡ some cfg.normal_group

  -- What a way of handling a record does to the record and to the tree.
  pub record IsFaithful (body : Record W → Effects W World → Record W × Effects W World)
      : Type 0 where
    pub agrees :
        (r : Record W) (e : Effects W World)
        → Agrees e.world r
        → Agrees (body r e).1.world (body r e).0
    pub others :
        (r : Record W) (e : Effects W World) (q : Pid)
        → eq_ℤ r.pid q ≡ false
        → group_of (body r e).1.world q ≡ group_of e.world q
    pub same_pid : (r : Record W) (e : Effects W World) → (body r e).0.pid ≡ r.pid

  Agrees-frame :
      (w w' : World) (r : Record W)
      → group_of w' r.pid ≡ group_of w r.pid
      → Agrees w r
      → Agrees w' r
  Agrees-frame w w' r h a = ground arith

  module _ (body : Record W → Effects W World → Record W × Effects W World)
      (f : IsFaithful body) where
    -- A pass leaves the groups of the pids that it does not visit.
    for_records-others :
        (rs : List (Record W)) (e : Effects W World) (q : Pid)
        → Absent q rs
        → group_of (for_records body rs e).1.world q ≡ group_of e.world q
    unfolding for_records
    for_records-others [] e q a = refl
    for_records-others (r ∷ rs) e q a =
        for_records-others rs (body r e).1 q a.1 ∙ f.others r e q a.0

    -- A pass over distinct pids keeps the agreement of every record.
    pub for_records-Agrees :
        (rs : List (Record W)) (e : Effects W World)
        → Distinct rs
        → All (Agrees e.world) rs
        → All (Agrees (for_records body rs e).1.world) (for_records body rs e).0
    unfolding for_records
    for_records-Agrees [] e k a = tt
    for_records-Agrees (r ∷ rs) e k a =
        let e' = (body r e).1 in
        let r' = (body r e).0 in
        let end = (for_records body rs e').1.world in
        let gone : Absent r'.pid rs = rw (f.same_pid r e) k.0 in
        (
          Agrees-frame e'.world end r' (for_records-others rs e' r'.pid gone) (f.agrees r e a.0),
          for_records-Agrees rs e' k.1 (
              All-Absent (Agrees e.world) (Agrees e'.world) rs r.pid
                (λ x n h.
                  Agrees-frame e.world e'.world x (f.others r e x.pid (eq_ℤ_sym x.pid r.pid n)) h)
                k.0 a.1),
        )

  module _ (now : ℕ) (live : cfg.dry_run ≡ false) where
    see_candidate-Agrees :
        (c : Candidate W) (r : Record W) (e : Effects W World)
        → Agrees e.world r
        → Agrees
            (see_candidate cgroups cfg now c r e).1.world
            (see_candidate cgroups cfg now c r e).0
    unfolding see_candidate move_pid
    see_candidate-Agrees c r e a = ground (
      arith,
      eq_ℤ_refl r.pid,
      group_of-moved r.pid cfg.throttled_group e.world r.pid,
      group_of-refused r.pid cfg.throttled_group e.world r.pid,
      group_of-moved r.pid cfg.normal_group e.world r.pid,
      group_of-refused r.pid cfg.normal_group e.world r.pid,
    )

    see_candidate-others :
        (c : Candidate W) (r : Record W) (e : Effects W World) (q : Pid)
        → eq_ℤ r.pid q ≡ false
        → group_of (see_candidate cgroups cfg now c r e).1.world q ≡ group_of e.world q
    unfolding see_candidate move_pid
    see_candidate-others c r e q n = ground (
      arith,
      group_of-moved r.pid cfg.throttled_group e.world q,
      group_of-refused r.pid cfg.throttled_group e.world q,
      group_of-moved r.pid cfg.normal_group e.world q,
      group_of-refused r.pid cfg.normal_group e.world q,
    )

    sweep_record-Agrees :
        (r : Record W) (e : Effects W World)
        → Agrees e.world r
        → Agrees (sweep_record cgroups cfg now r e).1.world (sweep_record cgroups cfg now r e).0
    unfolding sweep_record move_pid
    sweep_record-Agrees r e a = ground (
      arith,
      eq_ℤ_refl r.pid,
      group_of-moved r.pid cfg.throttled_group e.world r.pid,
      group_of-refused r.pid cfg.throttled_group e.world r.pid,
      group_of-moved r.pid cfg.normal_group e.world r.pid,
      group_of-refused r.pid cfg.normal_group e.world r.pid,
    )

    sweep_record-others :
        (r : Record W) (e : Effects W World) (q : Pid)
        → eq_ℤ r.pid q ≡ false
        → group_of (sweep_record cgroups cfg now r e).1.world q ≡ group_of e.world q
    unfolding sweep_record move_pid
    sweep_record-others r e q n = ground (
      arith,
      group_of-moved r.pid cfg.throttled_group e.world q,
      group_of-refused r.pid cfg.throttled_group e.world q,
      group_of-moved r.pid cfg.normal_group e.world q,
      group_of-refused r.pid cfg.normal_group e.world q,
    )

    release_throttled-Agrees :
        (r : Record W) (e : Effects W World)
        → Agrees e.world r
        → Agrees
            (release_throttled cgroups cfg now r e).1.world
            (release_throttled cgroups cfg now r e).0
    unfolding release_throttled release_record_pid move_pid
    release_throttled-Agrees r e a = ground (
      arith,
      eq_ℤ_refl r.pid,
      group_of-moved r.pid cfg.throttled_group e.world r.pid,
      group_of-refused r.pid cfg.throttled_group e.world r.pid,
      group_of-moved r.pid cfg.normal_group e.world r.pid,
      group_of-refused r.pid cfg.normal_group e.world r.pid,
    )

    release_throttled-others :
        (r : Record W) (e : Effects W World) (q : Pid)
        → eq_ℤ r.pid q ≡ false
        → group_of (release_throttled cgroups cfg now r e).1.world q ≡ group_of e.world q
    unfolding release_throttled release_record_pid move_pid
    release_throttled-others r e q n = ground (
      arith,
      group_of-moved r.pid cfg.throttled_group e.world q,
      group_of-refused r.pid cfg.throttled_group e.world q,
      group_of-moved r.pid cfg.normal_group e.world q,
      group_of-refused r.pid cfg.normal_group e.world q,
    )

    see_candidate-IsFaithful : (c : Candidate W) → IsFaithful (see_candidate cgroups cfg now c)
    see_candidate-IsFaithful c = record {
      agrees = see_candidate-Agrees c;
      others = see_candidate-others c;
      same_pid = λ r e. (see_candidate-pid cgroups cfg now c r e).0;
    }

    pub sweep_record-IsFaithful : IsFaithful (sweep_record cgroups cfg now)
    sweep_record-IsFaithful = record {
      agrees = sweep_record-Agrees;
      others = sweep_record-others;
      same_pid = λ r e. (sweep_record-pid cgroups cfg now r e).0;
    }

    pub release_throttled-IsFaithful : IsFaithful (release_throttled cgroups cfg now)
    release_throttled-IsFaithful = record {
      agrees = release_throttled-Agrees;
      others = release_throttled-others;
      same_pid = λ r e. (release_throttled-Same cgroups cfg now r e).same_pid;
    }

    -- What the loop over the candidates keeps.
    record Tracked (cs : List (Candidate W)) (rs : List (Record W)) (e : Effects W World)
        : Type 0 where
      sound : Sound cs rs
      agreement : All (Agrees e.world) rs

    Tracked-old :
        (c : Candidate W) (cs : List (Candidate W)) (rs : List (Record W)) (r : Record W)
        (e : Effects W World)
        → find_record rs c.pid ≡ some r
        → Tracked (c ∷ cs) rs e
        → let (r', e') = see_candidate cgroups cfg now c r e in
          Tracked cs (set_record rs c.pid r') e'
    Tracked-old c cs rs r e f t =
        let (r', e') = see_candidate cgroups cfg now c r e in
        let same = find_record-pid rs c.pid r f in
        record {
          sound = Sound-old cgroups cfg now c cs rs r e f t.sound;
          agreement =
              All-set_record (Agrees e.world) (Agrees e'.world) rs c.pid r' t.sound.apart
                (λ x n a.
                  Agrees-frame e.world e'.world x
                    (see_candidate-others c r e x.pid (rw same (eq_ℤ_sym x.pid c.pid n))) a)
                (see_candidate-Agrees c r e
                  (All-find_record (Agrees e.world) rs c.pid r t.agreement f))
                t.agreement;
        }

    new_record-Agrees : (w : World) (pid : Pid) → Agrees w (new_record {W = W} pid now)
    unfolding new_record
    new_record-Agrees w pid = ground arith

    Tracked-new :
        (c : Candidate W) (cs : List (Candidate W)) (rs : List (Record W)) (e : Effects W World)
        → find_record rs c.pid ≡ none
        → Tracked (c ∷ cs) rs e
        → let (r', e') = see_candidate cgroups cfg now c (new_record c.pid now) e in
          Tracked cs (rs ++ (r' ∷ [])) e'
    Tracked-new c cs rs e f t =
        let fresh = new_record c.pid now in
        let (r', e') = see_candidate cgroups cfg now c fresh e in
        record {
          sound = Sound-new cgroups cfg now c cs rs e f t.sound;
          agreement =
              All-append (Agrees e'.world) rs (r' ∷ [])
                (All-Absent (Agrees e.world) (Agrees e'.world) rs c.pid
                  (λ x n a.
                    Agrees-frame e.world e'.world x
                      (see_candidate-others c fresh e x.pid
                        (rw (new_record-pid W c.pid now) (eq_ℤ_sym x.pid c.pid n)))
                      a)
                  (Absent-find_record rs c.pid f) t.agreement)
                (see_candidate-Agrees c fresh e (new_record-Agrees e.world c.pid), tt);
        }

  clear_seen-Agrees :
      (w : World) (rs : List (Record W)) → All (Agrees w) rs → All (Agrees w) (clear_seen rs)
  clear_seen-Agrees w rs a =
      let Rel : Record W → Record W → Type 0 = λ r r'. Agrees w r → Agrees w r' in
      Pairwise-All Rel (Agrees w) (Agrees w) (λ x y h. h) rs (clear_seen rs)
        (clear_seen-Pairwise Rel (λ r h. ground arith) rs) a

module _ {W World : Type 0} ⦃d : Double W⦄ (cgroups : Cgroups World) where
  -- Every record of a controller agrees with what the cgroup tree has acknowledged.
  abbrev pub InStep : Controller W → World → Type 0
  InStep ctl w = All (Agrees cgroups ctl.cfg w) ctl.records

  -- Where the moves are real, a call of `apply_candidates` on a valid controller in step with the
  -- cgroup tree leaves them in step, whichever of its moves the kernel refuses.
  pub apply_candidates-InStep :
      (ctl : Controller W) (reading : Option (ℕ × ℕ)) (candidates : Span (Candidate W))
      (stats : Option (Stats W)) (w : World)
      → ctl.cfg.dry_run ≡ false
      → IsValid ctl
      → length (span_items candidates) < word
      → InStep ctl w
      → let out = apply_candidates cgroups (some ctl) reading candidates stats w in
        ((ctl' : Controller W) × (out.controller ≡ some ctl') × InStep ctl' out.world)
  apply_candidates-InStep ctl reading candidates stats w live v l a =
      elim (apply_candidates-cases cgroups ctl reading candidates stats w) [
        | inl refused ↦ (ctl, refused.same_controller, rw refused.same_world a)
        | inr accepted ↦
            let now = accepted.now in
            let cs = span_items candidates in
            let checked =
              prevalidate_candidates-Checked ctl candidates v.fits v.bounded l accepted.checked in
            let (rs, seen, outcome, fits, tracked) =
              apply_at_rule cgroups ctl now (Tracked cgroups ctl.cfg now live)
                (Tracked-old cgroups ctl.cfg now live) (Tracked-new cgroups ctl.cfg now live) cs
                (start accepted.counted w) checked.room
                (record {
                  sound = Sound-clear_seen cgroups ctl cs v checked;
                  agreement = clear_seen-Agrees cgroups ctl.cfg w ctl.records a;
                }) in
            rw (accepted.applied, outcome)
              (
                _,
                refl,
                for_records-Agrees cgroups ctl.cfg (sweep_record cgroups ctl.cfg now)
                    (sweep_record-IsFaithful cgroups ctl.cfg now live) rs seen tracked.sound.apart
                    tracked.agreement,
              )
      ]
