-- ===== src/Daemon/Events.antt =====
-- `handle_event` of protected_daemon.c.
use cgroup_research.Prelude.{
  ℕ, Bool, true, false, ◌&&◌, ◌||◌, Option, none, some, List, [], ◌∷◌, Pid, eq_ℤ, if◌then◌else◌,
}
use cgroup_research.Prelude.Word.{Text}
use cgroup_research.Cgroup.Group.{Group, ◌==_group◌}
use cgroup_research.Cgroup.Interface.{Cgroups}
use cgroup_research.ProcessTable.Table.{
  ProcInfo, Table, Event, EventType, Answers, write_info, process_get, process_upsert_exec,
  process_upsert_fork, process_remove,
}
use cgroup_research.Daemon.Policy.{policy_is_protected, policy_decide_group}

-- What the handler changes: the process table, and the world of the cgroup tree.
pub record Daemon (World : Type 0) : Type 0 where
  pub table : Table
  pub world : World

-- What the daemon has set up before: the names of policy.c, and its own pid.
pub record Setup : Type 0 where
  pub names : List Text
  pub daemon_pid : Pid

-- The daemon, or a child of it.
abbrev pub is_own : Setup → ProcInfo → Bool
is_own setup p = eq_ℤ p.pid setup.daemon_pid || eq_ℤ p.ppid setup.daemon_pid

-- The writes to the entry of an exec event.
unfoldable pub classify : List Text → ProcInfo → ProcInfo
classify names p =
    let seen = record p { exec_seen = true } in
    let marked =
      if policy_is_protected names seen then record seen { is_protected = true } else seen in
    record marked { group = policy_decide_group names marked }

-- The writes to the entry of the child of a protected process.
abbrev pub inherit : ProcInfo → ProcInfo
inherit child = record child {
  is_protected = true;
  inherited_protected = true;
  group = Group.protected;
}

module _ {World : Type 0} (cgroups : Cgroups World) (capacity : ℕ) (setup : Setup) where
  -- `cgroup_move_pid`, whose result is not looked at.
  abbrev pub protect : Bool → Pid → World → World
  protect moves pid w = if moves then (cgroups.move_pid pid Group.protected w).1 else w

  unfoldable pub handle_exec : Option (Table × ℕ) → Daemon World → Daemon World
  handle_exec none s = s
  handle_exec (some (t, i)) s =
      let p = (t.slots i).info in
      let p' = classify setup.names p in
      if is_own setup p then record s { table = t } else record {
        table = write_info i p' t;
        world = protect (p'.group ==_group Group.protected) p'.pid s.world;
      }

  abbrev pub is_guarding : Option ProcInfo → Bool
  is_guarding none = false
  is_guarding (some p) = p.used && p.is_protected

  unfoldable pub handle_fork : Event → Option (Table × ℕ) → Daemon World → Daemon World
  handle_fork e none s = s
  handle_fork e (some (t, i)) s =
      if is_guarding (process_get capacity t e.pid)
      then record {
        table = write_info i (inherit (t.slots i).info) t;
        world = protect true (t.slots i).info.pid s.world;
      }
      else record s { table = t }

  -- The three tests of the type of an event. `answers` is what /proc says while it is handled.
  unfoldable pub handle_by : EventType → Answers → Event → Daemon World → Daemon World
  unfolding handle_exec handle_fork
  handle_by EventType.exec answers e s =
      handle_exec (process_upsert_exec capacity answers s.table e) s
  handle_by EventType.fork answers e s = handle_fork e (process_upsert_fork capacity s.table e) s
  handle_by EventType.exit answers e s = record s { table = process_remove capacity s.table e.pid }
  handle_by (EventType.other n) answers e s = s

  unfoldable pub handle_event : Answers → Event → Daemon World → Daemon World
  unfolding handle_by
  handle_event answers e s = handle_by e.type answers e s

  -- The events of the ring buffer, in their order.
  unfoldable pub handle_events : List (Answers × Event) → Daemon World → Daemon World
  unfolding handle_event
  handle_events [] s = s
  handle_events ((answers, e) ∷ es) s = handle_events es (handle_event answers e s)
