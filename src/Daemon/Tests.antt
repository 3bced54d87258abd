-- ===== src/Daemon/Tests.antt =====
-- Runs of the event handler and of the process table, and their theorems at concrete inputs: a table
-- of four slots, in which pids 7 and 11 collide.
use cgroup_research.Prelude.{
  ℕ, ◌+◌, ◌*◌, ◌/◌, Bool, true, false, ◌<◌, ◌≡◌, refl, none, some, List, [], ◌∷◌, Pid, pos, codes,
  positive, eq_ℤ, arith, inl, inr, Bool-cases, leb, length,
}
use cgroup_research.Prelude.Word.{Text}
use cgroup_research.Cgroup.Interface.{Cgroups}
use cgroup_research.Cgroup.Control.{
  Written, World, move_pid, write_control, control_path, has_slash, group_dir, group_to_dir_name,
}
use cgroup_research.Cgroup.Decimal.{print_pid}
use cgroup_research.Cgroup.Tree.{cgroups_of, eq_text}
use cgroup_research.ProcessTable.Table.{
  EventType, Event, Answers, process_get, process_upsert_exec, process_upsert_fork, process_remove,
  process_snapshot, find_existing_slot, find_from, process_hash, find_upsert_slot, find_upsert_from,
  process_read_exe, process_read_cmdline, read_cmdline_from, prepare_upsert, claim, write_exec,
}
use cgroup_research.ProcessTable.Entries.{exec_asked, fork_asked}
use cgroup_research.ProcessTable.Search.{IsValid}
use cgroup_research.ProcessTable.Refine.{Upserted, process_upsert_exec-Upserted}
use cgroup_research.ProcessTable.Forks.{parent_of, process_upsert_fork-Upserted}
use cgroup_research.ProcessTable.Removal.{
  Removed, process_remove-Removed, process_table_reset-IsValid,
}
use cgroup_research.ProcessTable.Snapshot.{Snapped, process_snapshot-Snapped}
use cgroup_research.Daemon.Events.{
  Daemon, Setup, classify, handle_exec, handle_by, handle_event, handle_events,
}
use cgroup_research.Daemon.Policy.{
  policy_is_protected, name_among, policy_decide_group, policy_is_ignored,
}
use cgroup_research.Daemon.Handling.{Handled, handle_event-Handled}
use cgroup_research.Daemon.Shield.{
  Movable, Shielded, started, handle_events-IsValid, handle_events-Shielded,
}
use cgroup_research.Daemon.Persistence.{IsProtected, handle_event-IsProtected}
use cgroup_research.Prelude.Double.{fixed_point}
use cgroup_research.DramMapping.Mapping.{reset}
use cgroup_research.Calibration.Result.{calibration_result_reset}
use cgroup_research.Calibration.Worker.{Blocking, Polled, Waiting}
use cgroup_research.Calibration.Waits.{Ticks, IsTicking}
use cgroup_research.Calibration.Run.{Launch, RunAnswers}
use cgroup_research.Daemon.Banks.{DaemonState, DaemonContext, init_dram_bank_mapping}
use cgroup_research.Daemon.Readiness.{Initialised, init_dram_bank_mapping-Initialised}

-- A kernel that accepts every write.
abbrev tree : Cgroups World
tree = cgroups_of λ log path content. Written.done

abbrev untouched : World
untouched = record { base = codes "/cg"; log = [] }

abbrev setup : Setup
setup = record { names = codes "redis" ∷ []; daemon_pid = pos 5 }

-- No file of /proc opens.
abbrev silent : Answers
silent = record { exe = λ p. none; cmdline = λ p. none }

abbrev exec_of : Pid → Text → Event
exec_of p comm = record {
  type = EventType.exec;
  pid = p;
  ppid = pos 1;
  child_pid = pos 0;
  uid = 0;
  comm = comm;
}

abbrev fork_of : Pid → Pid → Event
fork_of p child = record {
  type = EventType.fork;
  pid = p;
  ppid = pos 1;
  child_pid = child;
  uid = 0;
  comm = codes "redis";
}

abbrev exit_of : Pid → Event
exit_of p = record {
  type = EventType.exit;
  pid = p;
  ppid = pos 1;
  child_pid = pos 0;
  uid = 0;
  comm = [];
}

-- A protected server and another process, in the same chain.
abbrev events : List (Answers × Event)
events = (silent, exec_of (pos 7) (codes "redis")) ∷ (silent, exec_of (pos 11) (codes "make")) ∷ []

four_there : 0 < 4
four_there = omega arith

abbrev running : Daemon World
running = handle_events tree 4 setup events (started tree 4 setup four_there untouched)

running-IsValid : IsValid 4 running.table
running-IsValid =
    handle_events-IsValid tree 4 setup four_there events (started tree 4 setup four_there untouched)
      (omega arith) (process_table_reset-IsValid 4 four_there).0

process_upsert_exec-Upserted_example :
    Upserted 4 four_there running.table
      (pos 15)
      (exec_asked silent (exec_of (pos 15) (codes "cc")))
      (process_upsert_exec 4 silent running.table (exec_of (pos 15) (codes "cc")))
unfolding positive
process_upsert_exec-Upserted_example =
    process_upsert_exec-Upserted 4 four_there silent running.table (exec_of (pos 15) (codes "cc"))
      (omega arith) running-IsValid refl

process_upsert_fork-Upserted_example :
    Upserted 4 four_there running.table
      (pos 8)
      (λ b old.
        fork_asked (fork_of (pos 7) (pos 8)) (parent_of 4 running.table (fork_of (pos 7) (pos 8))))
      (process_upsert_fork 4 running.table (fork_of (pos 7) (pos 8)))
unfolding positive
process_upsert_fork-Upserted_example =
    process_upsert_fork-Upserted 4 four_there running.table (fork_of (pos 7) (pos 8)) (omega arith)
      running-IsValid refl refl

process_remove-Removed_example :
    Removed 4 four_there running.table (pos 7) (process_remove 4 running.table (pos 7))
process_remove-Removed_example =
    process_remove-Removed 4 four_there running.table (pos 7) running-IsValid

process_snapshot-Snapped_example :
    Snapped 4 running.table running-IsValid 3 (process_snapshot 4 running.table (some 3))
process_snapshot-Snapped_example =
    process_snapshot-Snapped 4 running.table running-IsValid 3 four_there (omega arith)

handle_event-Handled_example :
    Handled tree 4 setup four_there silent
      (fork_of (pos 7) (pos 8))
      running
      (handle_event tree 4 setup silent (fork_of (pos 7) (pos 8)) running)
handle_event-Handled_example =
    handle_event-Handled tree 4 setup four_there silent (fork_of (pos 7) (pos 8)) running
      (omega arith) running-IsValid

handle_event-IsProtected_example :
    IsProtected
      (process_get 4 (handle_event tree 4 setup silent (exit_of (pos 11)) running).table (pos 7))
unfolding eq_ℤ process_get find_existing_slot find_from process_hash positive handle_events
    handle_exec process_upsert_exec find_upsert_slot find_upsert_from
    cgroup_research.ProcessTable.Table.exec_info process_read_exe process_read_cmdline
    read_cmdline_from classify policy_is_protected name_among eq_text policy_decide_group
    policy_is_ignored handle_event handle_by prepare_upsert claim write_exec
handle_event-IsProtected_example =
    handle_event-IsProtected tree 4 setup four_there silent (exit_of (pos 11)) running (pos 7)
      (omega arith) running-IsValid refl (_, (refl, refl))

-- The tree below one base accepts the pid 7.
AtBase : World → Type 0
AtBase w = w.base ≡ codes "/cg"

movable : Movable tree 4 setup four_there (pos 7) AtBase
unfolding AtBase move_pid positive print_pid write_control control_path has_slash group_dir
    group_to_dir_name
movable = record {
  stays = λ r w h. elim (Bool-cases (positive r)) [
    | inr n ↦ rw n h
    | inl y ↦ elim (Bool-cases (leb 128 (length (print_pid r)))) [
      | inl long ↦ rw (y, long) h
      | inr short ↦ rw (y, short, h) refl
    ]
  ];
  accepts = λ w h. rw h refl;
}

handle_events-Shielded_example :
    IsValid 4 (handle_events tree 4 setup events (started tree 4 setup four_there untouched)).table
    × Shielded tree 4 setup four_there
        (pos 7)
        (handle_events tree 4 setup events (started tree 4 setup four_there untouched))
unfolding AtBase
handle_events-Shielded_example =
    handle_events-Shielded tree 4 setup four_there events untouched (pos 7) AtBase (omega arith)
      movable refl

-- A worker that runs until it is killed: every turn takes a second.
abbrev hanging : Waiting
hanging = record {
  start = some (5, 0);
  turns = λ i. record { polled = Polled.running; clock = some (5 + i, 0) };
  ending_start = some (5, 0);
  ending_turns = λ i. record { polled = Polled.running; clock = some (5 + i, 0) };
  reaps = λ i. Blocking.returned;
}

a_second_each : Ticks 5000 (λ i. record { polled = Polled.running; clock = some (5 + i, 0) })
a_second_each = record {
  now = λ i. (5 + i) * 1000 + 0 / 1000000;
  reads = λ i. refl;
  goes_on = λ i. omega arith;
}

hanging-IsTicking : IsTicking hanging
hanging-IsTicking = record {
  start = 5000;
  start_read = refl;
  ticks = a_second_each;
  uninterrupted = λ i h. cc;
  ending_start = 5000;
  ending_start_read = refl;
  ending_ticks = a_second_each;
  last = 0;
  reaped = record { over = inl refl; interrupted = λ i l. absurd (omega arith) };
}

abbrev calibrating : RunAnswers
calibrating = record {
  removed = true;
  launch = Launch.launched;
  waiting = hanging;
  file = record {
    opens = false;
    seeks_end = true;
    size = pos 0;
    seeks_start = true;
    allocates = true;
    content = none;
    file_closes = true;
  };
}

abbrev unset : DaemonContext ℕ
unset = record {
  state = DaemonState.config_ready;
  calibration = calibration_result_reset;
  dram_mapping = reset;
  bank_mapping_ready = false;
}

init_dram_bank_mapping-Initialised_example :
    (r : Bool × DaemonContext ℕ) × (init_dram_bank_mapping 18001 (λ s. none) calibrating unset
      ≡ some r)
    × Initialised 18001 calibrating r
unfolding hanging-IsTicking
init_dram_bank_mapping-Initialised_example =
    init_dram_bank_mapping-Initialised 18001 (λ s. none) calibrating unset hanging-IsTicking
      (omega arith) (omega arith)
