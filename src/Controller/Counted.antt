-- ===== src/Controller/Counted.antt =====
-- What the statistics count for one candidate and for one record of the sweep, and what the handling
-- does to the return code of the call.
use cgroup_research.Prelude.{ℕ, ◌≡◌, ◌≢◌, ◌⊎◌, true, false, some, arith}
use cgroup_research.Prelude.Word.{inc}
use cgroup_research.Prelude.Double.{Double}
use cgroup_research.Cgroup.Interface.{Cgroups}
use cgroup_research.Controller.Types.{Rc, State, Candidate, Config, Record, Stats}
use cgroup_research.Controller.Record.{
  Effects, candidate_requests_throttle, see_candidate, sweep_record,
}
use cgroup_research.Controller.Transitions.{cooldown_done, IsReady}

module _ {W : Type 0} where
  abbrev pub seen_once : Stats W → Stats W
  seen_once s = record s { records_seen = inc s.records_seen }

  -- An error, with what the record says of it.
  abbrev pub with_error : Record W → Stats W → Stats W
  with_error r s = record s {
    errors = inc s.errors;
    last_error = r.last_error;
    last_error_reason = r.reason;
  }

module _ {W World : Type 0} ⦃d : Double W⦄ (cfg : Config W) (now : ℕ) where
  -- What is counted for a candidate, by the record before and after: its throttling, its release, that
  -- it stays throttled, that its cooldown goes on, that it stays normal, or an error.
  pub data SeenCounted (c : Candidate W) (r r' : Record W) (s : Stats W) (e e' : Effects W World)
      : Type 0 where
    throttled :
        IsReady cfg now r
        → candidate_requests_throttle cfg c ≡ true
        → r'.state ≡ State.throttled
        → r'.last_error ≡ Rc.ok
        → e'.stats ≡ some (record (seen_once s) { throttle_actions = inc s.throttle_actions })
        → e'.overall_rc ≡ e.overall_rc
        → SeenCounted c r r' s e e'
    released :
        r.state ≡ State.throttled
        → r'.state ≡ State.cooldown
        → r'.last_error ≡ Rc.ok
        → e'.stats ≡ some (record (seen_once s) { release_actions = inc s.release_actions })
        → e'.overall_rc ≡ e.overall_rc
        → SeenCounted c r r' s e e'
    kept :
        r.state ≡ State.throttled
        → r'.state ≡ State.throttled
        → r'.last_error ≡ Rc.ok
        → e'.stats ≡ some (record (seen_once s) { kept_throttled = inc s.kept_throttled })
        → e'.overall_rc ≡ e.overall_rc
        → SeenCounted c r r' s e e'
    cooling :
        r.state ≡ State.cooldown
        → cooldown_done cfg now r ≡ false
        → r'.state ≡ State.cooldown
        → r'.last_error ≡ Rc.ok
        → e'.stats ≡ some (record (seen_once s) { skipped_cooldown = inc s.skipped_cooldown })
        → e'.overall_rc ≡ e.overall_rc
        → SeenCounted c r r' s e e'
    normal :
        IsReady cfg now r
        → candidate_requests_throttle cfg c ≡ false
        → r'.state ≡ State.none
        → r'.last_error ≡ Rc.ok
        → e'.stats ≡ some (record (seen_once s) { skipped_low_score = inc s.skipped_low_score })
        → e'.overall_rc ≡ e.overall_rc
        → SeenCounted c r r' s e e'
    failed :
        r'.last_error ≢ Rc.ok
        → e'.stats ≡ some (with_error r' (seen_once s))
        → e'.overall_rc ≡ r'.last_error
        → SeenCounted c r r' s e e'

  -- What is counted for a record in the sweep: the release of a stale one, that one stays throttled, an
  -- error, or nothing, for one that a candidate named or that is not throttled.
  pub data SweptCounted (r r' : Record W) (s : Stats W) (e e' : Effects W World) : Type 0 where
    released :
        r.seen_in_last_apply ≡ false
        → r.state ≡ State.throttled
        → r'.state ≡ State.cooldown
        → e'.stats
          ≡ some (record s {
            release_actions = inc s.release_actions;
            stale_releases = inc s.stale_releases;
          })
        → e'.overall_rc ≡ e.overall_rc
        → SweptCounted r r' s e e'
    kept :
        r.seen_in_last_apply ≡ false
        → r.state ≡ State.throttled
        → r'.state ≡ State.throttled
        → r'.last_error ≡ r.last_error
        → e'.stats ≡ some (record s { kept_throttled = inc s.kept_throttled })
        → e'.overall_rc ≡ e.overall_rc
        → SweptCounted r r' s e e'
    failed :
        r.seen_in_last_apply ≡ false
        → r.state ≡ State.throttled
        → r'.state ≡ State.throttled
        → r'.last_error ≢ Rc.ok
        → e'.stats ≡ some (with_error r' s)
        → e'.overall_rc ≡ r'.last_error
        → SweptCounted r r' s e e'
    untouched :
        (r.seen_in_last_apply ≡ true) ⊎ (r.state ≢ State.throttled)
        → e' ≡ e
        → SweptCounted r r' s e e'

module _ {W World : Type 0} ⦃d : Double W⦄ (cgroups : Cgroups World) (cfg : Config W)
    (now : ℕ) where
  pub see_candidate-Counted :
      (c : Candidate W) (r : Record W) (s : Stats W) (e : Effects W World)
      → e.stats ≡ some s
      → SeenCounted cfg now c r
          (see_candidate cgroups cfg now c r e).0
          s
          e
          (see_candidate cgroups cfg now c r e).1
  unfolding see_candidate
  see_candidate-Counted c r s e h = grind (
    arith, SeenCounted.throttled, SeenCounted.released, SeenCounted.kept, SeenCounted.cooling,
    SeenCounted.normal, SeenCounted.failed,
  )

  pub sweep_record-Counted :
      (r : Record W) (s : Stats W) (e : Effects W World)
      → e.stats ≡ some s
      → SweptCounted cfg now r
          (sweep_record cgroups cfg now r e).0
          s
          e
          (sweep_record cgroups cfg now r e).1
  unfolding sweep_record
  sweep_record-Counted r s e h =
      grind (
        arith, SweptCounted.released, SweptCounted.kept, SweptCounted.failed,
        SweptCounted.untouched,
      )
