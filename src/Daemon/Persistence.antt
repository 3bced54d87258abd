-- ===== src/Daemon/Persistence.antt =====
-- Protection lasts as long as the process: no event of another process and no exec takes it away.
use cgroup_research.Prelude.{
  ℕ, ◌<◌, ◌≡◌, refl, ◌∙◌, inl, inr, Bool, true, false, Option, some, Pid, eq_ℤ, eq_ℤ_iff, eq_ℤ_refl,
  arith, Bool-cases,
}
use cgroup_research.Prelude.Word.{word}
use cgroup_research.Cgroup.Interface.{Cgroups}
use cgroup_research.ProcessTable.Table.{ProcInfo, Event, EventType, Answers, process_get}
use cgroup_research.ProcessTable.Search.{IsValid}
use cgroup_research.Daemon.Events.{Daemon, Setup, handle_event}
use cgroup_research.Daemon.Asked.{exec_entry}
use cgroup_research.Daemon.Spec.{Wrote}
use cgroup_research.Daemon.Handling.{Handled, handle_event-Handled}

-- An event after which the pid names another process or none.
abbrev pub ends : Event → Pid → Bool
ends e q = elim e.type [
  | EventType.exec ↦ false
  | EventType.fork ↦ eq_ℤ e.child_pid q
  | EventType.exit ↦ eq_ℤ e.pid q
  | EventType.other n ↦ false
]

-- The table has a protected entry of the pid.
abbrev pub IsProtected : Option ProcInfo → Type 0
IsProtected entry = (p : ProcInfo) × ((entry ≡ some p) × (p.is_protected ≡ true))

exec_entry-protected :
    (setup : Setup) (answers : Answers) (e : Event) (listed : Bool) (old : ProcInfo)
    → old.is_protected ≡ true
    → (exec_entry setup answers e listed (some old)).is_protected ≡ true
exec_entry-protected setup answers e listed old h = ground arith

apart : {x : Bool} → x ≡ false → x ≡ true → ⊥
apart h k = cc

same_entry : {a b : Option ProcInfo} → a ≡ b → IsProtected b → IsProtected a
same_entry e (p, (got, h)) = (p, (e ∙ got, h))

module _ {World : Type 0} (cgroups : Cgroups World) (capacity : ℕ) (setup : Setup)
    (c : 0 < capacity) where
  Wrote-IsProtected :
      (q r : Pid) (p : ProcInfo) (moves : Bool) (s s' : Daemon World)
      → IsProtected (process_get capacity s.table q)
      → (r ≡ q → p.is_protected ≡ true)
      → Wrote cgroups capacity setup s r p moves s'
      → IsProtected (process_get capacity s'.table q)
  Wrote-IsProtected q r p moves s s' h mine w = elim (Bool-cases (eq_ℤ r q)) [
    | inl e ↦ (p, (w.gets q ∙ rw e refl, mine ((eq_ℤ_iff r q).0 e)))
    | inr n ↦ same_entry (w.gets q ∙ rw n refl) h
  ]

  Handled-IsProtected :
      (answers : Answers) (e : Event) (q : Pid) (s s' : Daemon World)
      → IsProtected (process_get capacity s.table q)
      → ends e q ≡ false
      → Handled cgroups capacity setup c answers e s s'
      → IsProtected (process_get capacity s'.table q)
  Handled-IsProtected answers e q s s' (p, (got, h)) n (Handled.execed k listed there back w) =
      Wrote-IsProtected q e.pid _ _ s s' (p, (got, h))
        (λ same.
          let there : process_get capacity s.table e.pid ≡ some p = rw same got in
          rw there (exec_entry-protected setup answers e listed p h))
        w
  Handled-IsProtected answers e q s s' h n (Handled.forked k w) =
      let other : eq_ℤ e.child_pid q ≡ false = rw k at n in
      Wrote-IsProtected q e.child_pid _ _ s s' h
        (λ same. absurd (apart other (rw same (eq_ℤ_refl q)))) w
  Handled-IsProtected answers e q s s' h n (Handled.exited k r same) =
      let other : eq_ℤ e.pid q ≡ false = rw k at n in same_entry (r.gets q ∙ rw other refl) h
  Handled-IsProtected answers e q s s' h n (Handled.refused r o (x, y, same)) = rw same h
  Handled-IsProtected answers e q s s' h n (Handled.passed_over x same) = rw same h

  -- A protected process stays protected by every event on a valid table, whatever process it is of,
  -- but for its own exit and a fork that gives its pid to a new process.
  pub handle_event-IsProtected :
      (answers : Answers) (e : Event) (s : Daemon World) (q : Pid)
      → capacity < word
      → IsValid capacity s.table
      → ends e q ≡ false
      → IsProtected (process_get capacity s.table q)
      → IsProtected (process_get capacity (handle_event cgroups capacity setup answers e s).table q)
  handle_event-IsProtected answers e s q wide v n h =
      Handled-IsProtected answers e q s (handle_event cgroups capacity setup answers e s) h n
        (handle_event-Handled cgroups capacity setup c answers e s wide v)
