-- ===== src/Controller/Transitions.antt =====
-- The state machine of one record: the transitions that an interval may make, with their guards.
use cgroup_research.Prelude.{ℕ, ◌≡◌, ◌⊎◌, Bool, true, arith}
use cgroup_research.Prelude.Double.{Double}
use cgroup_research.Cgroup.Interface.{Cgroups}
use cgroup_research.Controller.Types.{Rc, State, Candidate, Config, Record}
use cgroup_research.Controller.Config.{elapsed_at_least}
use cgroup_research.Controller.Record.{
  Effects, candidate_requests_throttle, move_pid, see_candidate, sweep_record, release_record_pid,
}

module _ {W : Type 0} ⦃d : Double W⦄ (cfg : Config W) (now : ℕ) where
  -- The time that a record must spend in its state has passed.
  abbrev pub min_done : Record W → Bool
  min_done r = elapsed_at_least now r.state_entered_ns cfg.min_throttle_duration_ms

  abbrev pub cooldown_done : Record W → Bool
  cooldown_done r = elapsed_at_least now r.state_entered_ns cfg.cooldown_duration_ms

  -- A record may be throttled: it is not throttled, and no cooldown is running.
  abbrev pub IsReady : Record W → Type 0
  IsReady r = (r.state ≡ State.none) ⊎ ((r.state ≡ State.cooldown) × (cooldown_done r ≡ true))

  -- What a candidate may do to its record.
  pub data Seen (c : Candidate W) (r r' : Record W) : Type 0 where
    keep : r'.state ≡ r.state → r'.state_entered_ns ≡ r.state_entered_ns → Seen c r r'
    throttle :
        IsReady r
        → candidate_requests_throttle cfg c ≡ true
        → r'.state ≡ State.throttled
        → r'.state_entered_ns ≡ now
        → Seen c r r'
    release :
        r.state ≡ State.throttled
        → d.le c.final_score cfg.low_score_threshold ≡ true
        → min_done r ≡ true
        → r'.state ≡ State.cooldown
        → r'.state_entered_ns ≡ now
        → Seen c r r'
    rest :
        r.state ≡ State.cooldown
        → cooldown_done r ≡ true
        → r'.state ≡ State.none
        → r'.state_entered_ns ≡ now
        → Seen c r r'

  -- What an interval may do to a record that no candidate named.
  pub data Unseen (r r' : Record W) : Type 0 where
    keep : r'.state ≡ r.state → r'.state_entered_ns ≡ r.state_entered_ns → Unseen r r'
    release_stale :
        r.state ≡ State.throttled
        → elapsed_at_least now r.last_seen_ns cfg.stale_after_ms ≡ true
        → min_done r ≡ true
        → r'.state ≡ State.cooldown
        → r'.state_entered_ns ≡ now
        → Unseen r r'
    rest :
        r.state ≡ State.cooldown
        → cooldown_done r ≡ true
        → r'.state ≡ State.none
        → r'.state_entered_ns ≡ now
        → Unseen r r'

module _ {W World : Type 0} ⦃d : Double W⦄ (cgroups : Cgroups World) (cfg : Config W)
    (now : ℕ) where
  -- A candidate moves its record only along the transitions of `Seen`: into THROTTLED only on
  -- a request and out of NONE or a finished cooldown, out of THROTTLED only on a low score and after
  -- the minimum duration, out of COOLDOWN only after its duration; the entry time is the present
  -- whenever the state changes, and is kept otherwise.
  pub see_candidate-Seen :
      (c : Candidate W) (r : Record W) (e : Effects W World)
      → Seen cfg now c r (see_candidate cgroups cfg now c r e).0
  unfolding see_candidate
  see_candidate-Seen c r e = grind (arith, Seen.keep, Seen.throttle, Seen.release, Seen.rest)

  -- Without a candidate a record only keeps its state, is released as stale after both the stale and
  -- the minimum duration, or ends a finished cooldown.
  pub sweep_record-Unseen :
      (r : Record W) (e : Effects W World) → Unseen cfg now r (sweep_record cgroups cfg now r e).0
  unfolding sweep_record
  sweep_record-Unseen r e = grind (arith, Unseen.keep, Unseen.release_stale, Unseen.rest)

  -- A record that the candidates named is left alone by the sweep.
  pub sweep_record-seen :
      (r : Record W) (e : Effects W World)
      → r.seen_in_last_apply ≡ true
      → sweep_record cgroups cfg now r e ≡ (r, e)
  unfolding sweep_record
  sweep_record-seen r e h = rw h

  -- A request on a record that is ready throttles it now, if the move of its pid is acknowledged.
  pub see_candidate-throttles :
      (c : Candidate W) (r : Record W) (e : Effects W World)
      → IsReady cfg now r
      → candidate_requests_throttle cfg c ≡ true
      → (move_pid cgroups cfg r.pid cfg.throttled_group e.world).0 ≡ Rc.ok
      → ((see_candidate cgroups cfg now c r e).0.state ≡ State.throttled)
        × ((see_candidate cgroups cfg now c r e).0.state_entered_ns ≡ now)
  unfolding see_candidate
  see_candidate-throttles c r e h q m = ground arith

  -- A low score on a record that has been throttled for the minimum duration releases it now, if the
  -- move of its pid is acknowledged.
  pub see_candidate-releases :
      (c : Candidate W) (r : Record W) (e : Effects W World)
      → r.state ≡ State.throttled
      → d.le c.final_score cfg.low_score_threshold ≡ true
      → min_done cfg now r ≡ true
      → (move_pid cgroups cfg r.pid cfg.normal_group e.world).0 ≡ Rc.ok
      → ((see_candidate cgroups cfg now c r e).0.state ≡ State.cooldown)
        × ((see_candidate cgroups cfg now c r e).0.state_entered_ns ≡ now)
  unfolding see_candidate
  see_candidate-releases c r e h q t m = ground arith

  -- What every handling of a record leaves alone.
  pub see_candidate-pid :
      (c : Candidate W) (r : Record W) (e : Effects W World)
      → ((see_candidate cgroups cfg now c r e).0.pid ≡ r.pid)
        × ((see_candidate cgroups cfg now c r e).0.seen_in_last_apply ≡ true)
        × ((see_candidate cgroups cfg now c r e).0.last_seen_ns ≡ now)
  unfolding see_candidate
  see_candidate-pid c r e = ground arith

  pub release_record_pid-pid :
      (stale : Bool) (r : Record W) (e : Effects W World)
      → (release_record_pid cgroups cfg now stale r e).0.pid ≡ r.pid
  unfolding release_record_pid
  release_record_pid-pid stale r e = ground arith

  pub sweep_record-pid :
      (r : Record W) (e : Effects W World)
      → ((sweep_record cgroups cfg now r e).0.pid ≡ r.pid)
        × ((sweep_record cgroups cfg now r e).0.seen_in_last_apply ≡ r.seen_in_last_apply)
        × ((sweep_record cgroups cfg now r e).0.last_seen_ns ≡ r.last_seen_ns)
  unfolding sweep_record
  sweep_record-pid r e = ground arith
