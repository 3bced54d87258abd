-- ===== src/Controller/Record.antt =====
-- What happens to one record: the moves of its pid, and the state machine of an interval.
use cgroup_research.Prelude.{
  ℕ, Bool, true, false, not, ◌&&◌, Option, none, some, Pid, no_pid, if◌then◌else◌,
}
use cgroup_research.Prelude.Word.{inc}
use cgroup_research.Prelude.Double.{Double, nought}
use cgroup_research.Cgroup.Group.{Group}
use cgroup_research.Cgroup.Interface.{Cgroups}
use cgroup_research.Controller.Types.{
  Rc, State, Message, Candidate, Config, Record as ThrottleRecord, Stats,
}
use cgroup_research.Controller.Config.{elapsed_at_least}

-- What a call changes beside the record: the statistics, if the caller passed any, the world, and
-- the `overall_rc` of the loop.
pub record Effects (W World : Type 0) : Type 0 where
  pub stats : Option (Stats W)
  pub world : World
  pub overall_rc : Rc

module _ {W : Type 0} where
  abbrev pub map_stats : (Stats W → Stats W) → Option (Stats W) → Option (Stats W)
  map_stats f none = none
  map_stats f (some s) = some (f s)

module _ {W World : Type 0} where
  -- `if (stats != NULL) …`
  abbrev pub with_stats : (Stats W → Stats W) → Effects W World → Effects W World
  with_stats f e = record e { stats = map_stats f e.stats }

  abbrev pub set_stats_error : Rc → Message W → Effects W World → Effects W World
  set_stats_error rc reason =
      with_stats
        λ s. record s { errors = inc s.errors; last_error = rc; last_error_reason = reason }

  -- `if (rc != THROTTLE_CONTROLLER_OK) overall_rc = rc;`
  abbrev pub note_rc : Rc → Effects W World → Effects W World
  note_rc Rc.ok e = e
  note_rc rc e = record e { overall_rc = rc }

module _ {W : Type 0} ⦃d : Double W⦄ where
  unfoldable pub stats_reset : Stats W
  stats_reset = record {
    candidate_count = 0;
    records_seen = 0;
    throttle_actions = 0;
    release_actions = 0;
    kept_throttled = 0;
    skipped_low_score = 0;
    skipped_cooldown = 0;
    stale_releases = 0;
    errors = 0;
    last_error = Rc.ok;
    last_error_reason = Message.empty;
  }

  unfoldable pub record_reset : ThrottleRecord W
  record_reset = record {
    pid = no_pid;
    state = State.none;
    first_seen_ns = 0;
    last_seen_ns = 0;
    state_entered_ns = 0;
    last_action_ns = 0;
    last_activity_score = nought;
    last_overlap_score = nought;
    last_final_score = nought;
    last_common_pages = 0;
    seen_in_last_apply = false;
    last_should_throttle = false;
    last_error = Rc.ok;
    reason = Message.empty;
  }

  unfoldable pub candidate_requests_throttle : Config W → Candidate W → Bool
  candidate_requests_throttle cfg c =
      c.active && c.should_throttle && d.le cfg.high_score_threshold c.final_score

module _ {W World : Type 0} ⦃d : Double W⦄ (cgroups : Cgroups World) (cfg : Config W) where
  unfoldable pub move_pid : Pid → Group → World → Rc × World
  move_pid pid group w =
      if cfg.dry_run
      then (Rc.ok, w)
      else let (moved, w') = cgroups.move_pid pid group w in
        (if moved then Rc.ok else Rc.cgroup, w')

module _ {W World : Type 0} ⦃d : Double W⦄ (cgroups : Cgroups World) (cfg : Config W)
    (now_ns : ℕ) where
  -- What follows the move of `throttle_record_pid`, by its return code.
  unfoldable pub after_throttle :
      Rc → ThrottleRecord W → Effects W World → ThrottleRecord W × Effects W World
  after_throttle Rc.ok r e = (
    record r {
      state = State.throttled;
      state_entered_ns = now_ns;
      last_action_ns = now_ns;
      last_error = Rc.ok;
      reason = Message.throttled_at r.last_final_score r.last_activity_score r.last_overlap_score;
    },
    with_stats (λ s. record s { throttle_actions = inc s.throttle_actions }) e,
  )
  after_throttle rc r e = (
    record r { last_error = rc; reason = Message.failed_to_throttle },
    note_rc rc (set_stats_error rc Message.failed_to_throttle e),
  )

  -- The caller's `overall_rc` takes the return code of a failure.
  unfoldable pub throttle_record_pid :
      ThrottleRecord W → Effects W World → ThrottleRecord W × Effects W World
  unfolding after_throttle
  throttle_record_pid r e =
      let (rc, w) = move_pid cgroups cfg r.pid cfg.throttled_group e.world in
      after_throttle rc r (record e { world = w })

  unfoldable pub after_release :
      Rc → Bool → ThrottleRecord W → Effects W World → ThrottleRecord W × Effects W World
  after_release Rc.ok stale r e = (
    record r {
      state = State.cooldown;
      state_entered_ns = now_ns;
      last_action_ns = now_ns;
      last_error = Rc.ok;
      reason =
          if stale
          then Message.released_stale
          else Message.released_at r.last_final_score cfg.low_score_threshold;
    },
    with_stats
        (λ s. record s {
          release_actions = inc s.release_actions;
          stale_releases = if stale then inc s.stale_releases else s.stale_releases;
        })
        e,
  )
  after_release rc stale r e = (
    record r { last_error = rc; reason = Message.failed_to_release },
    note_rc rc (set_stats_error rc Message.failed_to_release e),
  )

  unfoldable pub release_record_pid :
      Bool → ThrottleRecord W → Effects W World → ThrottleRecord W × Effects W World
  unfolding after_release
  release_record_pid stale r e =
      let (rc, w) = move_pid cgroups cfg r.pid cfg.normal_group e.world in
      after_release rc stale r (record e { world = w })

  skip_low_score : Effects W World → Effects W World
  skip_low_score = with_stats λ s. record s { skipped_low_score = inc s.skipped_low_score }

  -- The `switch` on the record's state. The scores of the candidate are already in the record.
  unfoldable pub switch_state :
      State → Candidate W → ThrottleRecord W → Effects W World → ThrottleRecord W × Effects W World
  unfolding throttle_record_pid release_record_pid skip_low_score
  switch_state State.none c r e =
      if candidate_requests_throttle cfg c then throttle_record_pid r e else (
        record r {
          reason =
              Message.not_throttled r.last_final_score cfg.high_score_threshold c.active
                c.should_throttle;
        },
        skip_low_score e,
      )
  switch_state State.throttled c r e =
      if d.le r.last_final_score cfg.low_score_threshold
        && elapsed_at_least now_ns r.state_entered_ns cfg.min_throttle_duration_ms
      then release_record_pid false r e
      else (
        record r {
          reason =
              Message.kept_throttled r.last_final_score cfg.low_score_threshold
                (elapsed_at_least now_ns r.state_entered_ns cfg.min_throttle_duration_ms);
        },
        with_stats (λ s. record s { kept_throttled = inc s.kept_throttled }) e,
      )
  switch_state State.cooldown c r e =
      if not (elapsed_at_least now_ns r.state_entered_ns cfg.cooldown_duration_ms)
      then (
        record r { reason = Message.cooldown_active },
        with_stats (λ s. record s { skipped_cooldown = inc s.skipped_cooldown }) e,
      )
      else let r' = record r { state = State.none; state_entered_ns = now_ns } in
        if candidate_requests_throttle cfg c
        then throttle_record_pid r' e
        else (record r' { reason = Message.cooldown_remains_normal }, skip_low_score e)
  switch_state (State.other n) c r e = (
    record r { last_error = Rc.invalid_arg; reason = Message.invalid_state },
    note_rc Rc.invalid_arg (set_stats_error Rc.invalid_arg Message.invalid_state e),
  )

  -- The body of the loop over the candidates, at the record of the candidate's pid.
  unfoldable pub see_candidate :
      Candidate W → ThrottleRecord W → Effects W World → ThrottleRecord W × Effects W World
  unfolding switch_state
  see_candidate c r e =
      let r' = record r {
        seen_in_last_apply = true;
        last_seen_ns = now_ns;
        last_activity_score = c.activity_score;
        last_overlap_score = c.overlap_score;
        last_final_score = c.final_score;
        last_common_pages = c.common_pages;
        last_should_throttle = c.should_throttle;
        last_error = Rc.ok;
      } in
      switch_state r.state c r' (with_stats (λ s. record s { records_seen = inc s.records_seen }) e)

  -- The body of the loop over the records, for one that no candidate named.
  unfoldable pub sweep_unseen :
      State → ThrottleRecord W → Effects W World → ThrottleRecord W × Effects W World
  unfolding release_record_pid
  sweep_unseen State.throttled r e =
      let stale_done = elapsed_at_least now_ns r.last_seen_ns cfg.stale_after_ms in
      let min_done = elapsed_at_least now_ns r.state_entered_ns cfg.min_throttle_duration_ms in
      if stale_done && min_done then release_record_pid true r e else (
        record r { reason = Message.unseen_but_kept stale_done min_done },
        with_stats (λ s. record s { kept_throttled = inc s.kept_throttled }) e,
      )
  sweep_unseen State.cooldown r e =
      if elapsed_at_least now_ns r.state_entered_ns cfg.cooldown_duration_ms
      then (
        record r {
          state = State.none;
          state_entered_ns = now_ns;
          reason = Message.cooldown_normal;
        },
        e,
      )
      else (r, e)
  sweep_unseen state r e = (r, e)

  unfoldable pub sweep_record :
      ThrottleRecord W → Effects W World → ThrottleRecord W × Effects W World
  unfolding sweep_unseen
  sweep_record r e = if r.seen_in_last_apply then (r, e) else sweep_unseen r.state r e
