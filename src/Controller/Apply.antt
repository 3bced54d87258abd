-- ===== src/Controller/Apply.antt =====
-- The calls of throttle_controller.h that the daemon makes.
use cgroup_research.Prelude.{
  ℕ, Bool, true, false, not, ◌&&◌, ◌||◌, Option, none, some, List, [], ◌∷◌, ◌++◌, Pid, positive,
  length, leb, if◌then◌else◌,
}
use cgroup_research.Prelude.Word.{inc}
use cgroup_research.Prelude.Double.{Double}
use cgroup_research.Cgroup.Interface.{Cgroups}
use cgroup_research.Controller.Types.{
  Rc, State, is_throttled, Message, Candidate, Config, Record as ThrottleRecord, Controller, Stats,
}
use cgroup_research.Controller.Config.{
  validate_config, config_default, zero_config, controller_now_ns,
}
use cgroup_research.Controller.Candidates.{
  Span, span_items, find_record, set_record, prevalidate_candidates,
}
use cgroup_research.Controller.Record.{
  Effects, map_stats, set_stats_error, stats_reset, record_reset, see_candidate, sweep_record,
  release_record_pid,
}

module _ {W : Type 0} where
  unfoldable pub clear_seen : List (ThrottleRecord W) → List (ThrottleRecord W)
  clear_seen [] = []
  clear_seen (r ∷ rs) = record r { seen_in_last_apply = false } ∷ clear_seen rs

module _ {W : Type 0} ⦃d : Double W⦄ where
  -- The structure after memset(0).
  abbrev pub zeroed : Controller W
  zeroed = record { initialized = false; cfg = zero_config; records = []; record_cap = 0 }

  unfoldable pub new_record : Pid → ℕ → ThrottleRecord W
  unfolding record_reset
  new_record pid now_ns = record record_reset {
    pid = pid;
    state = State.none;
    first_seen_ns = now_ns;
    last_seen_ns = now_ns;
    state_entered_ns = now_ns;
    reason = Message.new_record;
  }

  -- `none` where the array is full.
  unfoldable pub create_record :
      ℕ → List (ThrottleRecord W) → Pid → ℕ → Option (List (ThrottleRecord W) × ThrottleRecord W)
  unfolding new_record
  create_record cap rs pid now_ns =
      if leb cap (length rs)
      then none
      else let r = new_record pid now_ns in some (rs ++ (r ∷ []), r)

  -- The record of a pid, made where there is none, beside the array that holds it.
  unfoldable pub find_or_create :
      ℕ → List (ThrottleRecord W) → Pid → ℕ → Option (List (ThrottleRecord W) × ThrottleRecord W)
  find_or_create cap rs pid now_ns = elim (find_record rs pid) [
    | some r ↦ some (rs, r)
    | none ↦ create_record cap rs pid now_ns
  ]

  -- `cfg == NULL` stands for the default.
  abbrev pub effective : Option (Config W) → Config W
  effective none = config_default
  effective (some cfg) = cfg

module _ {W World : Type 0} ⦃d : Double W⦄ (cgroups : Cgroups World) where
  -- The control files that a real run sets; `true` where every write succeeded.
  unfoldable pub configure : Config W → World → Bool × World
  configure cfg w =
      let (cpu_done, w₁) =
        if not cfg.dry_run && cfg.configure_throttled_cpu_max
        then cgroups.set_cpu_max cfg.throttled_group cfg.throttled_cpu_max w
        else (true, w) in
      if not cpu_done
      then (false, w₁)
      else if not cfg.dry_run && cfg.configure_protected_memory_low
      then cgroups.set_memory_low cfg.protected_group cfg.protected_memory_low w₁
      else (true, w₁)

  -- From the result of the validation on; `allocated` says whether `calloc` succeeds.
  unfoldable pub initialize : Rc → Bool → Config W → World → Rc × Controller W × World
  unfolding configure
  initialize Rc.ok allocated cfg w =
      if not allocated
      then (Rc.no_memory, zeroed, w)
      else let (done, w') = configure cfg w in
        if done
        then (
          Rc.ok,
          record { initialized = true; cfg = cfg; records = []; record_cap = cfg.max_records },
          w',
        )
        else (Rc.cgroup, zeroed, w')
  initialize rc allocated cfg w = (rc, zeroed, w)

  unfoldable pub init : Option (Config W) → Bool → World → Rc × Controller W × World
  unfolding initialize
  init cfg allocated w =
      let local = effective cfg in initialize (validate_config (some local)) allocated local w

  -- The loop over the candidates. `none` is the early return of a full array; the effects are those
  -- up to it.
  unfoldable pub see_all :
      Config W
      → ℕ
      → ℕ
      → List (ThrottleRecord W)
      → List (Candidate W)
      → Effects W World
      → Bool × List (ThrottleRecord W) × Effects W World
  see_all cfg cap now_ns rs [] e = (true, rs, e)
  see_all cfg cap now_ns rs (c ∷ cs) e = elim (find_or_create cap rs c.pid now_ns) [
    | none ↦ (false, rs, set_stats_error Rc.no_space Message.capacity_exhausted e)
    | some (rs', r) ↦
        let (r', e') = see_candidate cgroups cfg now_ns c r e in
        see_all cfg cap now_ns (set_record rs' c.pid r') cs e'
  ]

module _ {W World : Type 0} where
  -- A loop over the records in place, with what its body changes beside them.
  unfoldable pub for_records :
      (ThrottleRecord W → Effects W World → ThrottleRecord W × Effects W World)
      → List (ThrottleRecord W)
      → Effects W World
      → List (ThrottleRecord W) × Effects W World
  for_records body [] e = ([], e)
  for_records body (r ∷ rs) e =
      let (r', e') = body r e in let (rs', e'') = for_records body rs e' in (r' ∷ rs', e'')

-- What a call leaves: its return code, the structures that it was given, and the world.
pub record Outcome (W World : Type 0) : Type 0 where
  pub rc : Rc
  pub controller : Option (Controller W)
  pub stats : Option (Stats W)
  pub world : World

module _ {W World : Type 0} where
  -- The return after the last loop over the records.
  abbrev pub ended : Controller W → List (ThrottleRecord W) × Effects W World → Outcome W World
  ended ctl (rs, e) = record {
    rc = e.overall_rc;
    controller = some (record ctl { records = rs });
    stats = e.stats;
    world = e.world;
  }

  -- A return before anything of the controller has changed.
  abbrev pub refuse : Rc → Message W → Controller W → Option (Stats W) → World → Outcome W World
  refuse rc reason ctl stats w = record {
    rc = rc;
    controller = some ctl;
    stats =
        map_stats
          (λ s. record s { errors = inc s.errors; last_error = rc; last_error_reason = reason })
          stats;
    world = w;
  }

  abbrev pub start : Option (Stats W) → World → Effects W World
  start stats w = record { stats = stats; world = w; overall_rc = Rc.ok }

module _ {W World : Type 0} ⦃d : Double W⦄ (cgroups : Cgroups World) where
  -- After the loop over the candidates.
  unfoldable pub finish_apply :
      Controller W → ℕ → Bool → List (ThrottleRecord W) → Effects W World → Outcome W World
  finish_apply ctl now_ns false rs e = record {
    rc = Rc.no_space;
    controller = some (record ctl { records = rs });
    stats = e.stats;
    world = e.world;
  }
  finish_apply ctl now_ns true rs e =
      ended ctl (for_records (sweep_record cgroups ctl.cfg now_ns) rs e)

  -- From the validated candidates and the clock on.
  unfoldable pub apply_at :
      Controller W → ℕ → List (Candidate W) → Effects W World → Outcome W World
  unfolding finish_apply
  apply_at ctl now_ns cs e =
      let (room, rs, e') =
        see_all cgroups ctl.cfg ctl.record_cap now_ns (clear_seen ctl.records) cs e in
      finish_apply ctl now_ns room rs e'

  unfoldable pub apply_clocked :
      Controller W → Option ℕ → Span (Candidate W) → Option (Stats W) → World → Outcome W World
  unfolding apply_at
  apply_clocked ctl none candidates stats w = refuse Rc.time Message.time_failed ctl stats w
  apply_clocked ctl (some now_ns) candidates stats w = apply_at ctl now_ns (span_items candidates) (
      start (map_stats (λ s. record s { candidate_count = length (span_items candidates) }) stats)
        w)

  unfoldable pub apply_validated :
      Rc
      → Controller W
      → Option (ℕ × ℕ)
      → Span (Candidate W)
      → Option (Stats W)
      → World
      → Outcome W World
  unfolding apply_clocked
  apply_validated Rc.ok ctl reading candidates stats w =
      apply_clocked ctl (controller_now_ns ctl.cfg reading) candidates stats w
  apply_validated rc ctl reading candidates stats w =
      refuse rc Message.validation_failed ctl stats w

  -- `reading` is what `clock_gettime` gives in this call.
  unfoldable pub apply_candidates :
      Option (Controller W)
      → Option (ℕ × ℕ)
      → Span (Candidate W)
      → Option (Stats W)
      → World
      → Outcome W World
  unfolding apply_validated stats_reset
  apply_candidates none reading candidates stats w = record {
    rc = Rc.not_initialized;
    controller = none;
    stats = map_stats (λ s. stats_reset) stats;
    world = w;
  }
  apply_candidates (some ctl) reading candidates stats w =
      let fresh = map_stats (λ s. stats_reset) stats in
      if not ctl.initialized
      then record { rc = Rc.not_initialized; controller = some ctl; stats = fresh; world = w }
      else apply_validated (prevalidate_candidates ctl candidates) ctl reading candidates fresh w

  -- The body of the loop of `release_all`.
  unfoldable pub release_throttled :
      Config W → ℕ → ThrottleRecord W → Effects W World → ThrottleRecord W × Effects W World
  release_throttled cfg now_ns r e =
      if is_throttled r.state then release_record_pid cgroups cfg now_ns false r e else (r, e)

  unfoldable pub release_at : Controller W → Option ℕ → Option (Stats W) → World → Outcome W World
  release_at ctl none stats w = refuse Rc.time Message.time_failed ctl stats w
  release_at ctl (some now_ns) stats w =
      ended ctl (for_records (release_throttled ctl.cfg now_ns) ctl.records (start stats w))

  unfoldable pub release_all :
      Option (Controller W) → Option (ℕ × ℕ) → Option (Stats W) → World → Outcome W World
  unfolding release_at stats_reset
  release_all none reading stats w = record {
    rc = Rc.not_initialized;
    controller = none;
    stats = map_stats (λ s. stats_reset) stats;
    world = w;
  }
  release_all (some ctl) reading stats w =
      let fresh = map_stats (λ s. stats_reset) stats in
      if not ctl.initialized
      then record { rc = Rc.not_initialized; controller = some ctl; stats = fresh; world = w }
      else release_at ctl (controller_now_ns ctl.cfg reading) fresh w

module _ {W : Type 0} ⦃d : Double W⦄ where
  unfoldable pub destroy : Option (Controller W) → Option (Controller W)
  destroy none = none
  destroy (some ctl) = some zeroed

  -- A copy of the record of a pid; `out` is no null pointer.
  unfoldable pub get_record : Option (Controller W) → Pid → Option (ThrottleRecord W)
  get_record none pid = none
  get_record (some ctl) pid =
      if not ctl.initialized || not (positive pid) then none else find_record ctl.records pid
