-- ===== src/Controller/Invariant.antt =====
-- The representation invariant of the controller, and that every call keeps it.
use cgroup_research.Prelude.{
  ℕ, ◌≡◌, refl, ◌∙◌, ◌≤◌, ◌<◌, Bool, true, false, Option, none, some, List, [], ◌∷◌, ◌++◌, positive,
  All, All-append, length, arith, inl, inr,
}
use cgroup_research.Prelude.Word.{word}
use cgroup_research.Prelude.Double.{Double}
use cgroup_research.Cgroup.Interface.{Cgroups}
use cgroup_research.Controller.Types.{State, Candidate, Config, Record, Controller, Stats}
use cgroup_research.Controller.Candidates.{
  Span, span_items, candidate_valid, find_record, set_record,
}
use cgroup_research.Controller.Record.{Effects, see_candidate, sweep_record, release_record_pid}
use cgroup_research.Controller.Apply.{
  new_record, clear_seen, release_throttled, apply_at, apply_candidates,
}
use cgroup_research.Controller.Lookup.{
  Distinct, All-find_record, All-set_record, Distinct-set_record, Distinct-append,
  Absent-find_record, find_record-pid,
}
use cgroup_research.Controller.Room.{Checked, prevalidate_candidates-Checked}
use cgroup_research.Controller.Pairs.{
  Pairwise, Pairwise-All, length-Pairwise, Distinct-Pairwise, clear_seen-Pairwise,
}
use cgroup_research.Controller.Loops.{for_records-Pairwise, new_record-pid}
use cgroup_research.Controller.Cases.{apply_candidates-cases, apply_at_rule}

abbrev pub is_known : State → Bool
is_known (State.other n) = false
is_known _ = true

module _ {W : Type 0} where
  pub record WellFormed (r : Record W) : Type 0 where
    pub real_pid : positive r.pid ≡ true
    pub known : is_known r.state ≡ true

  pub record IsValid (ctl : Controller W) : Type 0 where
    pub fits : length ctl.records ≤ ctl.record_cap
    pub bounded : ctl.record_cap < word
    pub distinct : Distinct ctl.records
    pub well_formed : All WellFormed ctl.records

  -- What a pass over the records may do to one of them.
  pub record Same (r r' : Record W) : Type 0 where
    pub same_pid : r'.pid ≡ r.pid
    pub stays_known : is_known r.state ≡ true → is_known r'.state ≡ true

  pub Same-WellFormed : (r r' : Record W) → Same r r' → WellFormed r → WellFormed r'
  Same-WellFormed r r' s v = record {
    real_pid = rw s.same_pid v.real_pid;
    known = s.stays_known v.known;
  }

  pub clear_seen-Same : (r : Record W) → Same r (record r { seen_in_last_apply = false })
  clear_seen-Same r = ground arith

-- The part of the invariant that speaks of the records, with the candidates still to come.
pub record Sound {W : Type 0} ⦃d : Double W⦄ (cs : List (Candidate W)) (rs : List (Record W))
    : Type 0 where
  pub valid : All (λ c. candidate_valid c ≡ true) cs
  pub apart : Distinct rs
  pub formed : All WellFormed rs

module _ {W World : Type 0} ⦃d : Double W⦄ (cgroups : Cgroups World) (cfg : Config W)
    (now : ℕ) where
  pub see_candidate-Same :
      (c : Candidate W) (r : Record W) (e : Effects W World)
      → Same r (see_candidate cgroups cfg now c r e).0
  unfolding see_candidate
  see_candidate-Same c r e = ground arith

  pub sweep_record-Same :
      (r : Record W) (e : Effects W World) → Same r (sweep_record cgroups cfg now r e).0
  unfolding sweep_record
  sweep_record-Same r e = ground arith

  pub release_throttled-Same :
      (r : Record W) (e : Effects W World) → Same r (release_throttled cgroups cfg now r e).0
  unfolding release_throttled release_record_pid
  release_throttled-Same r e = ground arith

  new_record-WellFormed :
      (c : Candidate W) → candidate_valid c ≡ true → WellFormed (new_record {W = W} c.pid now)
  unfolding new_record candidate_valid
  new_record-WellFormed c h = ground arith

  pub Sound-old :
      (c : Candidate W) (cs : List (Candidate W)) (rs : List (Record W)) (r : Record W)
      (e : Effects W World)
      → find_record rs c.pid ≡ some r
      → Sound (c ∷ cs) rs
      → Sound cs (set_record rs c.pid (see_candidate cgroups cfg now c r e).0)
  Sound-old c cs rs r e f s =
      let r' = (see_candidate cgroups cfg now c r e).0 in
      let same = see_candidate-Same c r e in
      let kept : r'.pid ≡ c.pid = same.same_pid ∙ find_record-pid rs c.pid r f in
      record {
        valid = s.valid.1;
        apart = Distinct-set_record rs c.pid r' kept s.apart;
        formed =
            All-set_record WellFormed WellFormed rs c.pid r' s.apart (λ x n v. v)
              (Same-WellFormed r r' same (All-find_record WellFormed rs c.pid r s.formed f))
              s.formed;
      }

  pub Sound-new :
      (c : Candidate W) (cs : List (Candidate W)) (rs : List (Record W)) (e : Effects W World)
      → find_record rs c.pid ≡ none
      → Sound (c ∷ cs) rs
      → Sound cs (rs ++ ((see_candidate cgroups cfg now c (new_record c.pid now) e).0 ∷ []))
  Sound-new c cs rs e f s =
      let fresh = new_record c.pid now in
      let r' = (see_candidate cgroups cfg now c fresh e).0 in
      let same = see_candidate-Same c fresh e in
      let kept : r'.pid ≡ c.pid = same.same_pid ∙ new_record-pid W c.pid now in
      record {
        valid = s.valid.1;
        apart = Distinct-append rs r' s.apart (rw kept (Absent-find_record rs c.pid f));
        formed =
            All-append WellFormed rs (r' ∷ []) s.formed
              (Same-WellFormed fresh r' same (new_record-WellFormed c s.valid.0), tt);
      }

module _ {W World : Type 0} ⦃d : Double W⦄ (cgroups : Cgroups World) where
  -- After a pass over the records of a sound array.
  swept-IsValid :
      (ctl : Controller W) (rs rs' : List (Record W))
      → length rs ≤ ctl.record_cap
      → ctl.record_cap < word
      → Sound [] rs
      → Pairwise Same rs rs'
      → IsValid (record ctl { records = rs' })
  swept-IsValid ctl rs rs' f b s p = record {
    fits = omega (arith, length-Pairwise Same (λ a b h. h.same_pid) rs rs' p);
    bounded = b;
    distinct = Distinct-Pairwise Same (λ a b h. h.same_pid) rs rs' p s.apart;
    well_formed = Pairwise-All Same WellFormed WellFormed Same-WellFormed rs rs' p s.formed;
  }

  -- An interval begins with a sound array.
  pub Sound-clear_seen :
      (ctl : Controller W) (cs : List (Candidate W))
      → IsValid ctl
      → Checked ctl cs
      → Sound cs (clear_seen ctl.records)
  Sound-clear_seen ctl cs v c =
      let cleared = clear_seen ctl.records in
      let clear = clear_seen-Pairwise Same (λ r. clear_seen-Same r) ctl.records in
      record {
        valid = c.valid;
        apart = Distinct-Pairwise Same (λ a b h. h.same_pid) ctl.records cleared clear v.distinct;
        formed =
            Pairwise-All Same WellFormed WellFormed Same-WellFormed ctl.records cleared clear
              v.well_formed;
      }

  pub apply_at-IsValid :
      (ctl : Controller W) (now : ℕ) (cs : List (Candidate W)) (e : Effects W World)
      → IsValid ctl
      → Checked ctl cs
      → let out = apply_at cgroups ctl now cs e in
        ((ctl' : Controller W) × (out.controller ≡ some ctl') × IsValid ctl')
  apply_at-IsValid ctl now cs e v c =
      let (rs, seen, outcome, fits, sound) =
        apply_at_rule cgroups ctl now (λ cs rs e. Sound cs rs)
          (λ c cs rs r e. Sound-old cgroups ctl.cfg now c cs rs r e)
          (λ c cs rs e. Sound-new cgroups ctl.cfg now c cs rs e) cs e c.room
          (Sound-clear_seen ctl cs v c) in
      let pass =
        for_records-Pairwise (sweep_record cgroups ctl.cfg now) Same
          (sweep_record-Same cgroups ctl.cfg now) rs seen in
      rw outcome (_, refl, swept-IsValid ctl rs _ fits v.bounded sound pass)

  -- Every call of `apply_candidates` on a valid controller, with or without statistics, accepted or
  -- refused, leaves a valid controller.
  pub apply_candidates-IsValid :
      (ctl : Controller W) (reading : Option (ℕ × ℕ)) (candidates : Span (Candidate W))
      (stats : Option (Stats W)) (w : World)
      → IsValid ctl
      → length (span_items candidates) < word
      → let out = apply_candidates cgroups (some ctl) reading candidates stats w in
        ((ctl' : Controller W) × (out.controller ≡ some ctl') × IsValid ctl')
  apply_candidates-IsValid ctl reading candidates stats w v l =
      elim (apply_candidates-cases cgroups ctl reading candidates stats w) [
        | inl refused ↦ (ctl, refused.same_controller, v)
        | inr accepted ↦ rw accepted.applied (
            apply_at-IsValid ctl accepted.now (span_items candidates) _ v
              (prevalidate_candidates-Checked ctl candidates v.fits v.bounded l accepted.checked))
      ]
