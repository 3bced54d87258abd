-- ===== src/Daemon/Handling.antt =====
-- Every event that `handle_event` handles does to the map of processes and to the cgroup tree what
-- its kind asks for.
use cgroup_research.Prelude.{
  ℕ, ◌<◌, ◌≡◌, refl, inl, inr, Bool, true, false, none, Pid, positive, arith, Bool-cases, ◌&&◌,
  take,
}
use cgroup_research.Prelude.Word.{word}
use cgroup_research.Cgroup.Interface.{Cgroups}
use cgroup_research.ProcessTable.Table.{
  Table, Event, EventType, Answers, process_get, process_upsert_exec, process_upsert_fork,
}
use cgroup_research.ProcessTable.Entries.{guards, fork_asked}
use cgroup_research.ProcessTable.Search.{IsValid}
use cgroup_research.ProcessTable.Refine.{process_upsert_exec-Upserted}
use cgroup_research.ProcessTable.Forks.{parent_of, process_upsert_fork-Upserted}
use cgroup_research.ProcessTable.Removal.{process_remove-Removed, Removed}
use cgroup_research.Daemon.Events.{Daemon, Setup, handle_exec, handle_fork, handle_by, handle_event}
use cgroup_research.Daemon.Asked.{
  IsListed, exec_entry, moves_exec, name_among-IsListed, exec_entry_lem, moves_exec_lem,
}
use cgroup_research.Daemon.Policy.{name_among}
use cgroup_research.Daemon.Spec.{Wrote, Refused, handle_exec-Wrote, handle_fork-Wrote}

-- Whether the handler looks at an event: its type is known and its pids are pids.
abbrev pub is_handled : Event → Bool
is_handled e = elim e.type [
  | EventType.exec ↦ positive e.pid
  | EventType.fork ↦ positive e.pid && positive e.child_pid
  | EventType.exit ↦ true
  | EventType.other n ↦ false
]

-- The process that an event writes an entry of.
abbrev pub subject : Event → Pid
subject e = elim e.type [
  | EventType.exec ↦ e.pid
  | EventType.fork ↦ e.child_pid
  | EventType.exit ↦ e.pid
  | EventType.other n ↦ e.pid
]

both : (x y : Bool) → (x && y) ≡ true → (x ≡ true) × (y ≡ true)
both x y h = (ground arith, ground arith)

module _ {World : Type 0} (cgroups : Cgroups World) (capacity : ℕ) (setup : Setup)
    (c : 0 < capacity) where
  -- What an event does.
  pub data Handled (answers : Answers) (e : Event) (s s' : Daemon World) : Type 0 where
    execed :
        e.type ≡ EventType.exec
        → (listed : Bool) → (listed ≡ true → IsListed (take 15 e.comm) setup.names)
        → (IsListed (take 15 e.comm) setup.names → listed ≡ true)
        → Wrote cgroups capacity setup s e.pid
            (exec_entry setup answers e listed (process_get capacity s.table e.pid))
            (moves_exec setup e listed (process_get capacity s.table e.pid))
            s'
        → Handled answers e s s'
    forked :
        e.type ≡ EventType.fork
        → Wrote cgroups capacity setup s e.child_pid
            (fork_asked e (parent_of capacity s.table e))
            (guards (parent_of capacity s.table e))
            s'
        → Handled answers e s s'
    exited :
        e.type ≡ EventType.exit
        → Removed capacity c s.table e.pid s'.table
        → s'.world ≡ s.world
        → Handled answers e s s'
    refused :
        (q : Pid) → subject e ≡ q → Refused cgroups capacity setup s q s' → Handled answers e s s'
    passed_over : is_handled e ≡ false → s' ≡ s → Handled answers e s s'

  exec_refused :
      (answers : Answers) (t : Table) (e : Event)
      → positive e.pid ≡ false
      → process_upsert_exec capacity answers t e ≡ none
  unfolding process_upsert_exec
  exec_refused answers t e n = rw n refl

  fork_refused :
      (t : Table) (e : Event)
      → (positive e.pid && positive e.child_pid) ≡ false
      → process_upsert_fork capacity t e ≡ none
  unfolding process_upsert_fork
  fork_refused t e n = ground arith

  execed-Handled :
      (answers : Answers) (e : Event) (s : Daemon World)
      → capacity < word
      → IsValid capacity s.table
      → e.type ≡ EventType.exec
      → Handled answers e s
          (handle_exec cgroups capacity setup (process_upsert_exec capacity answers s.table e) s)
  unfolding handle_exec
  execed-Handled answers e s wide v k = elim (Bool-cases (positive e.pid)) [
    | inr n ↦ Handled.passed_over (rw (k, n) refl) (rw (exec_refused answers s.table e n) refl)
    | inl y ↦
        elim (handle_exec-Wrote cgroups capacity setup answers e s c v y
          (process_upsert_exec-Upserted capacity c answers s.table e wide v y)) [
            | inl w ↦
                let old = process_get capacity s.table e.pid in
                let listed = name_among (take 15 e.comm) setup.names in
                let (there, back) = name_among-IsListed (take 15 e.comm) setup.names in
                Handled.execed k listed there back (
                  rw
                    (
                      ← exec_entry_lem setup answers e listed old refl,
                      ← moves_exec_lem setup answers e listed old refl,
                    )
                    w)
            | inr r ↦ Handled.refused e.pid (rw k refl) r
          ]
  ]

  forked-Handled :
      (answers : Answers) (e : Event) (s : Daemon World)
      → capacity < word
      → IsValid capacity s.table
      → e.type ≡ EventType.fork
      → Handled answers e s
          (handle_fork cgroups capacity setup e (process_upsert_fork capacity s.table e) s)
  unfolding handle_fork
  forked-Handled answers e s wide v k = elim (Bool-cases (positive e.pid && positive e.child_pid)) [
    | inr n ↦ Handled.passed_over (rw (k, n) refl) (rw (fork_refused s.table e n) refl)
    | inl y ↦
        let (y_parent, y_child) = both (positive e.pid) (positive e.child_pid) y in
        elim (handle_fork-Wrote cgroups capacity setup e s c v y_child
          (process_upsert_fork-Upserted capacity c s.table e wide v y_parent y_child)) [
            | inl w ↦ Handled.forked k w
            | inr r ↦ Handled.refused e.child_pid (rw k refl) r
          ]
  ]

  handle_by-Handled :
      (k : EventType) (answers : Answers) (e : Event) (s : Daemon World)
      → capacity < word
      → IsValid capacity s.table
      → e.type ≡ k
      → Handled answers e s (handle_by cgroups capacity setup k answers e s)
  unfolding handle_by
  handle_by-Handled EventType.exec answers e s wide v h = execed-Handled answers e s wide v h
  handle_by-Handled EventType.fork answers e s wide v h = forked-Handled answers e s wide v h
  handle_by-Handled EventType.exit answers e s wide v h =
      Handled.exited h (process_remove-Removed capacity c s.table e.pid v) refl
  handle_by-Handled (EventType.other n) answers e s wide v h = Handled.passed_over (rw h refl) refl

  -- Every event does what its kind asks for. An exec event writes the entry of its pid, with the
  -- metadata of the event and of /proc and the protection that an earlier entry had. For the daemon and
  -- its children this is all; any other process is also protected where its name is in the list of
  -- protected names, its group is the ignored one if the pid is at most 2 or the name is empty, the
  -- protected one if it is protected, and the background one otherwise, and the pid is moved into the
  -- protected group exactly where that is its group. A fork event writes the entry of the child,
  -- protected and moved into the protected group exactly when the parent is protected and another
  -- process. An exit event forgets its pid and moves none. No other entry changes, and the table stays
  -- valid. Nothing changes at all if the table is full of other processes, the type is unknown or a pid
  -- is not positive.
  pub handle_event-Handled :
      (answers : Answers) (e : Event) (s : Daemon World)
      → capacity < word
      → IsValid capacity s.table
      → Handled answers e s (handle_event cgroups capacity setup answers e s)
  unfolding handle_event
  handle_event-Handled answers e s wide v = handle_by-Handled e.type answers e s wide v refl

  pub Handled-IsValid :
      {answers : Answers} {e : Event} {s s' : Daemon World}
      → IsValid capacity s.table
      → Handled answers e s s'
      → IsValid capacity s'.table
  Handled-IsValid v (Handled.execed k listed there back w) = w.valid
  Handled-IsValid v (Handled.forked k w) = w.valid
  Handled-IsValid v (Handled.exited k r e) = r.valid
  Handled-IsValid v (Handled.refused q o (x, y, e)) = rw e v
  Handled-IsValid v (Handled.passed_over x e) = rw e v
