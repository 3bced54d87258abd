-- ===== src/ProcessTable/Table.antt =====
-- process.c: the table, its search loops and the operations on it. `capacity` stands for PROC_MAX.
use cgroup_research.Prelude.{
  ℕ, zero, suc, ◌+◌, ◌-◌, ◌%◌, Bool, true, false, not, ◌&&◌, ◌||◌, Option, none, some, List, [],
  ◌∷◌, Pid, pos, negsuc, positive, eq_ℤ, take, ltb, leb, ◌==◌, if◌then◌else◌, map,
}
use cgroup_research.Prelude.Word.{word, Text, inc}
use cgroup_research.Cgroup.Group.{Group}

-- PROC_PATH_MAX, CMDLINE_MAX and TASK_COMM_LEN
abbrev pub proc_path_max : ℕ
proc_path_max = 4096

abbrev pub cmdline_max : ℕ
cmdline_max = 4096

abbrev pub task_comm_len : ℕ
task_comm_len = 16

-- `enum process_slot_state`
pub data SlotState : Type 0 where
  empty occupied tombstone : SlotState

-- `enum process_result`
pub data ProcessRc : Type 0 where
  ok invalid_arg no_space inconsistent : ProcessRc

-- `struct proc_info`; an `int` that holds a truth value is a Boolean, a buffer its text before the NUL.
pub record ProcInfo : Type 0 where
  pub used : Bool
  pub pid : Pid
  pub ppid : Pid
  pub uid : ℕ
  pub exec_seen : Bool
  pub exited : Bool
  pub is_protected : Bool
  pub inherited_protected : Bool
  pub group : Group
  pub comm : Text
  pub exe_path : Text
  pub cmdline : Text

-- After memset(0).
abbrev pub zero_info : ProcInfo
zero_info = record {
  used = false;
  pid = pos 0;
  ppid = pos 0;
  uid = 0;
  exec_seen = false;
  exited = false;
  is_protected = false;
  inherited_protected = false;
  group = Group.protected;
  comm = [];
  exe_path = [];
  cmdline = [];
}

-- `enum event_type` of protected_daemon.h; `other n` is any other number.
pub data EventType : Type 0 where
  exec fork exit : EventType
  other : ℕ → EventType

-- `struct event`
pub record Event : Type 0 where
  pub type : EventType
  pub pid : Pid
  pub ppid : Pid
  pub child_pid : Pid
  pub uid : ℕ
  pub comm : Text

-- `proc_table[i]` and `slot_states[i]`
pub record Slot : Type 0 where
  pub state : SlotState
  pub info : ProcInfo

-- `proc_table` and `slot_states`, and `occupied_count`.
pub record Table : Type 0 where
  pub slots : ℕ → Slot
  pub occupied_count : ℕ

abbrev pub is_empty : SlotState → Bool
is_empty SlotState.empty = true
is_empty _ = false

abbrev pub is_occupied : SlotState → Bool
is_occupied SlotState.occupied = true
is_occupied _ = false

-- `slot_states[i] == PROCESS_SLOT_OCCUPIED && proc_table[i].used && proc_table[i].pid == pid`
abbrev pub holds : Pid → Slot → Bool
holds pid s = is_occupied s.state && s.info.used && eq_ℤ s.info.pid pid

-- An assignment to an element of the arrays.
abbrev pub write_slot : ℕ → Slot → Table → Table
write_slot i s t = record t { slots = λ j. if i == j then s else t.slots j }

abbrev pub write_info : ℕ → ProcInfo → Table → Table
write_info i p t = write_slot i (record { state = (t.slots i).state; info = p }) t

-- The answers of the /proc files of a process: the target of its exe link, and what is read of its
-- cmdline, with whether the file closes.
pub record Answers : Type 0 where
  pub exe : Pid → Option Text
  pub cmdline : Pid → Option (Text × Bool)

unfoldable pub process_read_exe : Answers → ProcInfo → ProcInfo
process_read_exe answers p = if not (positive p.pid) then p else elim (answers.exe p.pid) [
  | none ↦ record p { exe_path = [] }
  | some path ↦ record p { exe_path = take (proc_path_max - 1) path }
]

-- `if (p->cmdline[i] == '\0') p->cmdline[i] = ' ';`
abbrev pub spaced : ℕ → ℕ
spaced c = if c == 0 then 32 else c

unfoldable pub read_cmdline_from : Option (Text × Bool) → ProcInfo → ProcInfo
read_cmdline_from none p = record p { cmdline = [] }
read_cmdline_from (some (content, closes)) p =
    if not closes
    then record p { cmdline = [] }
    else record p { cmdline = map spaced (take (cmdline_max - 1) content) }

unfoldable pub process_read_cmdline : Answers → ProcInfo → ProcInfo
unfolding read_cmdline_from
process_read_cmdline answers p =
    if not (positive p.pid) then p else read_cmdline_from (answers.cmdline p.pid) p

-- What `process_upsert_exec` preserves of an entry that is there.
abbrev pub preserved : Bool → ProcInfo → ProcInfo
preserved found old = record zero_info {
  is_protected = if found then old.is_protected else false;
  inherited_protected = if found then old.inherited_protected else false;
  group = if found then old.group else Group.unknown;
}

-- The entry that an exec event writes over `old`.
unfoldable pub exec_info : Answers → Event → Bool → ProcInfo → ProcInfo
exec_info answers e found old = process_read_cmdline answers (
    process_read_exe answers (record (preserved found old) {
      used = true;
      pid = e.pid;
      ppid = e.ppid;
      uid = e.uid;
      exec_seen = true;
      comm = take (task_comm_len - 1) e.comm;
    }))

-- The entry of a forked child, before its parent is looked at.
abbrev pub fork_child : Event → ProcInfo
fork_child e = record zero_info {
  used = true;
  pid = e.child_pid;
  ppid = e.pid;
  uid = e.uid;
  group = Group.unknown;
  comm = take (task_comm_len - 1) e.comm;
}

-- The entry that a fork event writes, where `parent` is what the pointer to the parent shows.
unfoldable pub fork_info : Event → Option ProcInfo → ProcInfo
fork_info e parent = elim parent [
  | none ↦ fork_child e
  | some p ↦
      if p.used && p.is_protected
      then record (fork_child e) {
        is_protected = true;
        inherited_protected = true;
        group = Group.protected;
      }
      else fork_child e
]

-- What a pointer into the table shows.
abbrev pub entry_at : Table → Option ℕ → Option ProcInfo
entry_at t slot = elim slot [ none ↦ none | some idx ↦ some (t.slots idx).info ]

module _ (capacity : ℕ) where
  -- (uint64_t)pid % PROC_MAX
  unfoldable pub process_hash : Pid → ℕ
  process_hash (pos n) = n % capacity
  process_hash (negsuc n) = (word - suc n) % capacity

  -- The loop over the probes: `left` of them are left, from `probe` on.
  unfoldable pub find_from : Table → Pid → ℕ → ℕ → ℕ → Option ℕ
  find_from t pid begin probe zero = none
  find_from t pid begin probe (suc left) =
      let idx = (begin + probe) % capacity in
      let rest = find_from t pid begin (suc probe) left in
      if is_empty (t.slots idx).state
      then none
      else if holds pid (t.slots idx)
      then some idx
      else rest

  -- `none` is both 0 and -1, which no caller tells apart.
  unfoldable pub find_existing_slot : Table → Pid → Option ℕ
  find_existing_slot t pid =
      if not (positive pid) then none else find_from t pid (process_hash pid) 0 capacity

  -- A slot that is not found, if there is a first tombstone.
  abbrev pub reuse : Option ℕ → Option (ℕ × Bool)
  reuse none = none
  reuse (some i) = some (i, false)

  -- `none` of the first tombstone is PROC_MAX; `none` of the result is -1.
  unfoldable pub find_upsert_from : Table → Pid → ℕ → ℕ → ℕ → Option ℕ → Option (ℕ × Bool)
  find_upsert_from t pid begin probe zero first = reuse first
  find_upsert_from t pid begin probe (suc left) first =
      let idx = (begin + probe) % capacity in
      let rest = find_upsert_from t pid begin (suc probe) left first in
      let rest_after = find_upsert_from t pid begin (suc probe) left (some idx) in
      elim (t.slots idx).state [
        | SlotState.occupied ↦ if holds pid (t.slots idx) then some (idx, true) else rest
        | SlotState.tombstone ↦ elim first [ none ↦ rest_after | some i ↦ rest ]
        | SlotState.empty ↦ elim first [ none ↦ some (idx, false) | some i ↦ some (i, false) ]
      ]

  unfoldable pub find_upsert_slot : Table → Pid → Option (ℕ × Bool)
  find_upsert_slot t pid =
      if not (positive pid) then none else find_upsert_from t pid (process_hash pid) 0 capacity none

  -- From the slot on: the table, the slot, and whether it was found.
  unfoldable pub claim : Table → Option (ℕ × Bool) → Option (Table × ℕ × Bool)
  claim t none = none
  claim t (some (idx, true)) = some (t, idx, true)
  claim t (some (idx, false)) =
      if leb capacity t.occupied_count
      then none
      else let written =
          write_slot idx (record { state = SlotState.occupied; info = zero_info }) t in
        some (record written { occupied_count = inc t.occupied_count }, idx, false)

  unfoldable pub prepare_upsert : Table → Pid → Option (Table × ℕ × Bool)
  unfolding claim
  prepare_upsert t pid = claim t (find_upsert_slot t pid)

  abbrev pub process_table_reset : Table
  process_table_reset = record {
    slots = λ i. record { state = SlotState.empty; info = zero_info };
    occupied_count = 0;
  }

  -- The entry behind the pointer, or NULL.
  unfoldable pub process_get : Table → Pid → Option ProcInfo
  process_get t pid = entry_at t (find_existing_slot t pid)

  unfoldable pub write_exec : Answers → Event → Option (Table × ℕ × Bool) → Option (Table × ℕ)
  write_exec answers e none = none
  write_exec answers e (some (t, idx, found)) =
      some (write_info idx (exec_info answers e found (t.slots idx).info) t, idx)

  -- The table and the slot of the pointer that is returned, or NULL.
  unfoldable pub process_upsert_exec : Answers → Table → Event → Option (Table × ℕ)
  unfolding write_exec
  process_upsert_exec answers t e =
      if not (positive e.pid) then none else write_exec answers e (prepare_upsert t e.pid)

  -- The pointer to the parent is read after the child's entry has been written; the two may be the
  -- same.
  unfoldable pub write_fork : Event → Option ℕ → Option (Table × ℕ × Bool) → Option (Table × ℕ)
  write_fork e parent none = none
  write_fork e parent (some (t, idx, found)) =
      let written = write_info idx (fork_child e) t in
      some (write_info idx (fork_info e (entry_at written parent)) t, idx)

  unfoldable pub process_upsert_fork : Table → Event → Option (Table × ℕ)
  unfolding write_fork
  process_upsert_fork t e =
      if not (positive e.pid) || not (positive e.child_pid)
      then none
      else write_fork e (find_existing_slot t e.pid) (prepare_upsert t e.child_pid)

  unfoldable pub remove_at : Table → Option ℕ → Table
  remove_at t none = t
  remove_at t (some idx) =
      let written = write_slot idx (record { state = SlotState.tombstone; info = zero_info }) t in
      record written {
        occupied_count = if ltb 0 t.occupied_count then t.occupied_count - 1 else t.occupied_count;
      }

  unfoldable pub process_remove : Table → Pid → Table
  unfolding remove_at
  process_remove t pid = remove_at t (find_existing_slot t pid)

  -- The first pass, from slot `i` on: the occupied slots, or an inconsistency.
  unfoldable pub count_occupied : Table → ℕ → ℕ → ℕ → Option ℕ
  count_occupied t i zero actual = some actual
  count_occupied t i (suc left) actual =
      let s = t.slots i in
      let counted = count_occupied t (suc i) left (inc actual) in
      let rest = count_occupied t (suc i) left actual in
      if is_occupied s.state
      then if not s.info.used || not (positive s.info.pid) then none else counted
      else if s.info.used
      then none
      else rest

  -- The second pass.
  unfoldable pub copy_occupied : Table → ℕ → ℕ → List ProcInfo
  copy_occupied t i zero = []
  copy_occupied t i (suc left) =
      let rest = copy_occupied t (suc i) left in
      if is_occupied (t.slots i).state then (t.slots i).info ∷ rest else rest

  unfoldable pub snapshot_counted : Table → ℕ → Option ℕ → ProcessRc × List ProcInfo
  snapshot_counted t room none = (ProcessRc.inconsistent, [])
  snapshot_counted t room (some actual) =
      if not (actual == t.occupied_count)
      then (ProcessRc.inconsistent, [])
      else if ltb room actual
      then (ProcessRc.no_space, [])
      else (ProcessRc.ok, copy_occupied t 0 capacity)

  -- `room` is the size of `out`, or `none` for NULL; the list is what was copied, and its length goes
  -- through `out_count`, which is no null pointer.
  unfoldable pub process_snapshot : Table → Option ℕ → ProcessRc × List ProcInfo
  unfolding snapshot_counted
  process_snapshot t none = (ProcessRc.invalid_arg, [])
  process_snapshot t (some room) = snapshot_counted t room (count_occupied t 0 capacity 0)
