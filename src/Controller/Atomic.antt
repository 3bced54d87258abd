-- ===== src/Controller/Atomic.antt =====
-- What a call of `apply_candidates` that reports an error has done, and what a dry run does.
use cgroup_research.Prelude.{
  ℕ, ◌≡◌, refl, ap, ◌∙◌, ◌≢◌, ◌⊎◌, inl, inr, ◌<◌, true, Option, some, none, List, [], ◌∷◌, ◌++◌,
  length, arith,
}
use cgroup_research.Prelude.Word.{word}
use cgroup_research.Prelude.Double.{Double}
use cgroup_research.Cgroup.Interface.{Cgroups}
use cgroup_research.Controller.Types.{Rc, Candidate, Config, Record, Controller, Stats}
use cgroup_research.Controller.Candidates.{Span, span_items, find_record, set_record}
use cgroup_research.Controller.Record.{Effects, move_pid, see_candidate, sweep_record}
use cgroup_research.Controller.Apply.{Outcome, start, new_record, for_records, apply_candidates}
use cgroup_research.Controller.Lookup.{All-find_record}
use cgroup_research.Controller.Room.{prevalidate_candidates-Checked}
use cgroup_research.Controller.Invariant.{
  is_known, WellFormed, IsValid, Sound, Sound-old, Sound-new, Sound-clear_seen,
}
use cgroup_research.Controller.Cases.{apply_candidates-cases, apply_at_rule}

-- The only error that an interval meets once it has begun.
abbrev pub IsMoveRc : Rc → Type 0
IsMoveRc rc = (rc ≡ Rc.ok) ⊎ (rc ≡ Rc.cgroup)

module _ {W World : Type 0} ⦃d : Double W⦄ (cgroups : Cgroups World) (cfg : Config W)
    (now : ℕ) where
  see_candidate-IsMoveRc :
      (c : Candidate W) (r : Record W) (e : Effects W World)
      → is_known r.state ≡ true
      → IsMoveRc e.overall_rc
      → IsMoveRc (see_candidate cgroups cfg now c r e).1.overall_rc
  unfolding see_candidate move_pid
  see_candidate-IsMoveRc c r e k h = ground arith

  sweep_record-IsMoveRc :
      (r : Record W) (e : Effects W World)
      → IsMoveRc e.overall_rc
      → IsMoveRc (sweep_record cgroups cfg now r e).1.overall_rc
  unfolding sweep_record move_pid
  sweep_record-IsMoveRc r e h = ground arith

  sweep-IsMoveRc :
      (rs : List (Record W)) (e : Effects W World)
      → IsMoveRc e.overall_rc
      → IsMoveRc (for_records (sweep_record cgroups cfg now) rs e).1.overall_rc
  unfolding for_records
  sweep-IsMoveRc [] e h = h
  sweep-IsMoveRc (r ∷ rs) e h =
      sweep-IsMoveRc rs (sweep_record cgroups cfg now r e).1 (sweep_record-IsMoveRc r e h)

  record Reports (cs : List (Candidate W)) (rs : List (Record W)) (e : Effects W World)
      : Type 0 where
    sound : Sound cs rs
    move_rc : IsMoveRc e.overall_rc

  Reports-old :
      (c : Candidate W) (cs : List (Candidate W)) (rs : List (Record W)) (r : Record W)
      (e : Effects W World)
      → find_record rs c.pid ≡ some r
      → Reports (c ∷ cs) rs e
      → let (r', e') = see_candidate cgroups cfg now c r e in Reports cs (set_record rs c.pid r') e'
  Reports-old c cs rs r e f h = record {
    sound = Sound-old cgroups cfg now c cs rs r e f h.sound;
    move_rc =
        see_candidate-IsMoveRc c r e (All-find_record WellFormed rs c.pid r h.sound.formed f).known
          h.move_rc;
  }

  new_record-known : (c : Candidate W) → is_known (new_record {W = W} c.pid now).state ≡ true
  unfolding new_record
  new_record-known c = refl

  Reports-new :
      (c : Candidate W) (cs : List (Candidate W)) (rs : List (Record W)) (e : Effects W World)
      → find_record rs c.pid ≡ none
      → Reports (c ∷ cs) rs e
      → let (r', e') = see_candidate cgroups cfg now c (new_record c.pid now) e in
        Reports cs (rs ++ (r' ∷ [])) e'
  Reports-new c cs rs e f h = record {
    sound = Sound-new cgroups cfg now c cs rs e f h.sound;
    move_rc = see_candidate-IsMoveRc c (new_record c.pid now) e (new_record-known c) h.move_rc;
  }

  -- A dry run handles records without a write.
  see_candidate-dry :
      (c : Candidate W) (r : Record W) (e : Effects W World)
      → cfg.dry_run ≡ true
      → (see_candidate cgroups cfg now c r e).1.world ≡ e.world
  unfolding see_candidate move_pid
  see_candidate-dry c r e h = ground arith

  sweep_record-dry :
      (r : Record W) (e : Effects W World)
      → cfg.dry_run ≡ true
      → (sweep_record cgroups cfg now r e).1.world ≡ e.world
  unfolding sweep_record move_pid
  sweep_record-dry r e h = ground arith

  sweep-dry :
      (rs : List (Record W)) (e : Effects W World)
      → cfg.dry_run ≡ true
      → (for_records (sweep_record cgroups cfg now) rs e).1.world ≡ e.world
  unfolding for_records
  sweep-dry [] e h = refl
  sweep-dry (r ∷ rs) e h =
      sweep-dry rs (sweep_record cgroups cfg now r e).1 h ∙ sweep_record-dry r e h

module _ {W World : Type 0} ⦃d : Double W⦄ (cgroups : Cgroups World) where
  -- A call on a valid controller whose error is not that of a cgroup move has changed neither
  -- the controller nor the cgroup tree: in particular the array is never found full halfway.
  pub apply_candidates-atomic :
      (ctl : Controller W) (reading : Option (ℕ × ℕ)) (candidates : Span (Candidate W))
      (stats : Option (Stats W)) (w : World)
      → IsValid ctl
      → length (span_items candidates) < word
      → (apply_candidates cgroups (some ctl) reading candidates stats w).rc ≢ Rc.ok
      → (apply_candidates cgroups (some ctl) reading candidates stats w).rc ≢ Rc.cgroup
      → let out = apply_candidates cgroups (some ctl) reading candidates stats w in
        (out.controller ≡ some ctl) × (out.world ≡ w)
  apply_candidates-atomic ctl reading candidates stats w v l not_ok not_cgroup =
      elim (apply_candidates-cases cgroups ctl reading candidates stats w) [
        | inl refused ↦ (refused.same_controller, refused.same_world)
        | inr accepted ↦
            let now = accepted.now in
            let cs = span_items candidates in
            let checked =
              prevalidate_candidates-Checked ctl candidates v.fits v.bounded l accepted.checked in
            let (rs, seen, outcome, fits, reports) =
              apply_at_rule cgroups ctl now (Reports cgroups ctl.cfg now)
                (Reports-old cgroups ctl.cfg now) (Reports-new cgroups ctl.cfg now) cs
                (start accepted.counted w) checked.room
                (record {
                  sound = Sound-clear_seen cgroups ctl cs v checked;
                  move_rc = inl refl;
                }) in
            let same = ap (λ (out : Outcome W World). out.rc) (accepted.applied ∙ outcome) in
            elim (sweep-IsMoveRc cgroups ctl.cfg now rs seen reports.move_rc) [
              | inl h ↦ absurd (not_ok (same ∙ h))
              | inr h ↦ absurd (not_cgroup (same ∙ h))
            ]
      ]

  -- A dry run of a valid controller makes no write at all.
  pub apply_candidates-dry :
      (ctl : Controller W) (reading : Option (ℕ × ℕ)) (candidates : Span (Candidate W))
      (stats : Option (Stats W)) (w : World)
      → ctl.cfg.dry_run ≡ true
      → IsValid ctl
      → length (span_items candidates) < word
      → (apply_candidates cgroups (some ctl) reading candidates stats w).world ≡ w
  apply_candidates-dry ctl reading candidates stats w dry v l =
      elim (apply_candidates-cases cgroups ctl reading candidates stats w) [
        | inl refused ↦ refused.same_world
        | inr accepted ↦
            let now = accepted.now in
            let checked =
              prevalidate_candidates-Checked ctl candidates v.fits v.bounded l accepted.checked in
            let (rs, seen, outcome, fits, still) =
              apply_at_rule cgroups ctl now (λ cs rs e. e.world ≡ w)
                (λ c cs rs r e f h. see_candidate-dry cgroups ctl.cfg now c r e dry ∙ h)
                (λ c cs rs e f h.
                  see_candidate-dry cgroups ctl.cfg now c (new_record c.pid now) e dry ∙ h)
                (span_items candidates) (start accepted.counted w) checked.room refl in
            rw (accepted.applied, outcome) (sweep-dry cgroups ctl.cfg now rs seen dry ∙ still)
      ]
