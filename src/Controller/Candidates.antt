-- ===== src/Controller/Candidates.antt =====
-- The checks of a candidate list before anything of the controller changes, and the lookup of records.
use cgroup_research.Prelude.{
  ℕ, Bool, true, false, not, ◌||◌, Option, none, some, List, [], ◌∷◌, Pid, positive, eq_ℤ, length,
  ltb, if◌then◌else◌,
}
use cgroup_research.Prelude.Word.{inc, sub_u64}
use cgroup_research.Prelude.Double.{Double, nought, one}
use cgroup_research.Controller.Types.{Rc, Candidate, Record, Controller}

-- A pointer and a count: NULL with a count, or the elements that are there.
pub data Span (A : Type 0) : Type 0 where
  null : ℕ → Span A
  items : List A → Span A

abbrev pub span_items : {A : Type 0} → Span A → List A
span_items (Span.null n) = []
span_items (Span.items xs) = xs

module _ {W : Type 0} where
  -- The first record of a pid, as `find_record` and `find_record_const` search for it.
  unfoldable pub find_record : List (Record W) → Pid → Option (Record W)
  find_record [] pid = none
  find_record (r ∷ rs) pid = if eq_ℤ r.pid pid then some r else find_record rs pid

  -- A write through the pointer that `find_record` returned.
  unfoldable pub set_record : List (Record W) → Pid → Record W → List (Record W)
  set_record [] pid v = []
  set_record (r ∷ rs) pid v = if eq_ℤ r.pid pid then v ∷ rs else r ∷ set_record rs pid v

  abbrev pub is_none : Option (Record W) → Bool
  is_none none = true
  is_none (some r) = false

  -- The inner loop: an earlier candidate has this pid.
  unfoldable pub pid_among : Pid → List (Candidate W) → Bool
  pid_among pid [] = false
  pid_among pid (c ∷ cs) = eq_ℤ pid c.pid || pid_among pid cs

module _ {W : Type 0} ⦃d : Double W⦄ where
  unfoldable pub candidate_valid : Candidate W → Bool
  candidate_valid c =
      if not (positive c.pid)
      then false
      else if not (d.is_finite c.activity_score)
          || not (d.is_finite c.overlap_score)
          || not (d.is_finite c.final_score)
      then false
      else not (
          d.lt c.activity_score nought
          || d.lt one c.activity_score
          || d.lt c.overlap_score nought
          || d.lt one c.overlap_score
          || d.lt c.final_score nought
          || d.lt one c.final_score)

  -- The outer loop: `earlier` lists the candidates before this one, `new_records` counts the pids
  -- without a record, and `none` is THROTTLE_CONTROLLER_ERR_INVALID_ARG.
  unfoldable pub count_new :
      List (Record W) → List (Candidate W) → ℕ → List (Candidate W) → Option ℕ
  count_new rs earlier new_records [] = some new_records
  count_new rs earlier new_records (c ∷ cs) =
      let rest =
        count_new rs (c ∷ earlier)
          (if is_none (find_record rs c.pid) then inc new_records else new_records) cs in
      if not (candidate_valid c) then none else if pid_among c.pid earlier then none else rest

  room_for : Controller W → Option ℕ → Rc
  room_for ctl none = Rc.invalid_arg
  room_for ctl (some new_records) =
      if ltb (sub_u64 ctl.record_cap (length ctl.records)) new_records then Rc.no_space else Rc.ok

  unfoldable pub prevalidate_candidates : Controller W → Span (Candidate W) → Rc
  unfolding room_for
  prevalidate_candidates ctl (Span.null n) =
      if ltb 0 n then Rc.invalid_arg else room_for ctl (some 0)
  prevalidate_candidates ctl (Span.items cs) = room_for ctl (count_new ctl.records [] 0 cs)
