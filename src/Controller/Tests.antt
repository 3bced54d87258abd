-- ===== src/Controller/Tests.antt =====
-- Runs of the controller, and its theorems at concrete inputs.
use Prim.Native.Nat.{ℕ}
use cgroup_research.Prelude.{
  ◌≡◌, refl, true, false, none, some, [], ◌∷◌, pos, codes, All, arith, positive, eq_ℤ,
}
use cgroup_research.Prelude.Double.{fixed_point}
use cgroup_research.Cgroup.Group.{Group}
use cgroup_research.Cgroup.Interface.{Cgroups}
use cgroup_research.Cgroup.Control.{
  World, Written, write_control, control_path, has_slash, group_dir, group_to_dir_name,
}
use cgroup_research.Cgroup.Tree.{cgroups_of, eq_text, entry_group, last_group}
use cgroup_research.Cgroup.Decimal.{print_pid}
use cgroup_research.Controller.Types.{
  Rc, State, Message, Candidate, Config, Record, Controller, Stats, is_throttled,
}
use cgroup_research.Controller.Config.{controller_now_ns}
use cgroup_research.Controller.Candidates.{
  Span, find_record, prevalidate_candidates, count_new, candidate_valid, pid_among,
}
use cgroup_research.Controller.Record.{
  Effects, candidate_requests_throttle, see_candidate, sweep_record, stats_reset,
  release_record_pid,
}
use cgroup_research.Controller.Apply.{
  start, apply_candidates, release_all, for_records, release_throttled, init, effective,
}
use cgroup_research.Controller.Room.{Checked, prevalidate_candidates-Checked}
use cgroup_research.Controller.Transitions.{Seen, Unseen, see_candidate-Seen, sweep_record-Unseen}
use cgroup_research.Controller.Invariant.{IsValid, apply_candidates-IsValid}
use cgroup_research.Controller.Persistence.{Kept, Waits, apply_candidates-Waits}
use cgroup_research.Controller.Membership.{InStep, apply_candidates-InStep}
use cgroup_research.Controller.Release.{release_all-InStep, release_all-released}
use cgroup_research.Controller.Atomic.{apply_candidates-atomic}
use cgroup_research.Controller.Start.{Begun, init_lem}

-- A kernel that accepts every write.
abbrev tree : Cgroups World
tree = cgroups_of λ log path content. Written.done

abbrev untouched : World
untouched = record { base = codes "/cg"; log = [] }

-- Thresholds 0.2 and 0.1, three seconds throttled, two in cooldown, two until stale.
abbrev settings : Config ℕ
settings = record {
  normal_group = Group.background;
  throttled_group = Group.throttled;
  protected_group = Group.protected;
  throttled_cpu_max = codes "20000 100000";
  protected_memory_low = codes "0";
  high_score_threshold = 2000;
  low_score_threshold = 1000;
  min_throttle_duration_ms = 3000;
  cooldown_duration_ms = 2000;
  stale_after_ms = 2000;
  max_records = 4;
  dry_run = false;
  configure_throttled_cpu_max = true;
  configure_protected_memory_low = false;
  clock_fn = none;
  clock_ctx = 0;
}

abbrev empty : Controller ℕ
empty = record { initialized = true; cfg = settings; records = []; record_cap = 4 }

-- Pid 7, which asks to be throttled.
abbrev noisy : Candidate ℕ
noisy = record {
  pid = pos 7;
  activity_score = 6000;
  cpu_score = 0;
  fault_score = 0;
  rss_score = 0;
  overlap_score = 5000;
  final_score = 3000;
  common_pages = 12;
  active = true;
  should_throttle = true;
}

-- Its record, throttled at ten seconds.
abbrev held : Record ℕ
held = record {
  pid = pos 7;
  state = State.throttled;
  first_seen_ns = 10000000000;
  last_seen_ns = 10000000000;
  state_entered_ns = 10000000000;
  last_action_ns = 10000000000;
  last_activity_score = 6000;
  last_overlap_score = 5000;
  last_final_score = 3000;
  last_common_pages = 12;
  seen_in_last_apply = true;
  last_should_throttle = true;
  last_error = Rc.ok;
  reason = Message.throttled_at 3000 6000 5000;
}

abbrev holding : Controller ℕ
holding = record empty { records = held ∷ [] }

abbrev effects : Effects ℕ World
effects = start none untouched

see_candidate-Seen_example :
    Seen settings 11000000000 noisy held
      (see_candidate tree settings 11000000000 noisy held effects).0
see_candidate-Seen_example = see_candidate-Seen tree settings 11000000000 noisy held effects

sweep_record-Unseen_example :
    Unseen settings 14000000000 held (sweep_record tree settings 14000000000 held effects).0
sweep_record-Unseen_example = sweep_record-Unseen tree settings 14000000000 held effects

apply_candidates-IsValid_example :
    let out =
      apply_candidates tree (some empty) (some (10, 0)) (Span.items (noisy ∷ [])) none untouched in
    ((ctl : Controller ℕ) × (out.controller ≡ some ctl) × IsValid ctl)
apply_candidates-IsValid_example =
    apply_candidates-IsValid tree empty (some (10, 0)) (Span.items (noisy ∷ [])) none untouched
      (omega arith) (omega arith)

apply_candidates-Waits_example :
    let out = apply_candidates tree (some holding) (some (11, 0)) (Span.items []) none untouched in
    ((ctl : Controller ℕ) × (out.controller ≡ some ctl)
      × Kept (Waits settings 11000000000) (held ∷ []) ctl.records)
unfolding controller_now_ns positive
apply_candidates-Waits_example =
    apply_candidates-Waits tree holding (some (11, 0)) (Span.items []) none untouched 11000000000
      (ground arith) (omega arith) refl

apply_candidates-InStep_example :
    let out =
      apply_candidates tree (some empty) (some (10, 0)) (Span.items (noisy ∷ [])) none untouched in
    ((ctl : Controller ℕ) × (out.controller ≡ some ctl) × InStep tree ctl out.world)
apply_candidates-InStep_example =
    apply_candidates-InStep tree empty (some (10, 0)) (Span.items (noisy ∷ [])) none untouched refl
      (omega arith) (omega arith) tt

abbrev throttled_seven : World
throttled_seven = record {
  base = codes "/cg";
  log =
      record {
        path = codes "/cg/throttled/cgroup.procs";
        content = codes "7\n";
        result = Written.done;
      }
      ∷ [];
}

abbrev counters : Stats ℕ
unfolding stats_reset
counters = stats_reset

release_all-InStep_example :
    let out = release_all tree (some holding) (some (11, 0)) none throttled_seven in
    ((ctl : Controller ℕ) × (out.controller ≡ some ctl) × InStep tree ctl out.world)
unfolding last_group entry_group eq_text print_pid positive eq_ℤ
release_all-InStep_example =
    release_all-InStep tree holding (some (11, 0)) none throttled_seven refl (ground arith)
      (record { throttled_there = λ h. refl; released_there = λ h. cc }, tt)

release_all-released_example :
    let out = release_all tree (some holding) (some (11, 0)) none throttled_seven in
    ((ctl : Controller ℕ) × (out.controller ≡ some ctl)
      × All (λ r. is_throttled r.state ≡ false) ctl.records)
unfolding release_all controller_now_ns for_records release_throttled release_record_pid
    cgroup_research.Controller.Record.move_pid cgroup_research.Cgroup.Control.move_pid positive
    print_pid write_control control_path has_slash group_dir group_to_dir_name
release_all-released_example =
    release_all-released tree holding (some (11, 0)) none throttled_seven refl

-- A second candidate for pid 7.
twice_refused :
    (apply_candidates tree
      (some empty)
      (some (10, 0))
      (Span.items (noisy ∷ noisy ∷ []))
      none
      untouched).rc
    ≡ Rc.invalid_arg
unfolding apply_candidates prevalidate_candidates count_new candidate_valid positive pid_among eq_ℤ
twice_refused = refl

apply_candidates-atomic_example :
    let out =
      apply_candidates tree
        (some empty)
        (some (10, 0))
        (Span.items (noisy ∷ noisy ∷ []))
        none
        untouched in
    (out.controller ≡ some empty) × (out.world ≡ untouched)
apply_candidates-atomic_example =
    apply_candidates-atomic tree empty (some (10, 0)) (Span.items (noisy ∷ noisy ∷ [])) none
      untouched (omega arith) (omega arith) (λ h. ground (arith, twice_refused))
      (λ h. ground (arith, twice_refused))

abbrev rehearsing : Controller ℕ
rehearsing = record empty { cfg = record settings { dry_run = true } }

init_lem_example : Begun (effective (some settings)) true (init tree (some settings) true untouched)
init_lem_example = init_lem tree (some settings) true untouched (omega arith)

prevalidate_candidates-Checked_example : Checked empty (noisy ∷ [])
unfolding prevalidate_candidates count_new candidate_valid positive pid_among find_record
prevalidate_candidates-Checked_example =
    prevalidate_candidates-Checked empty (Span.items (noisy ∷ [])) (omega arith) (omega arith)
      (omega arith) refl
