-- ===== src/Daemon/Asked.antt =====
-- What an exec event asks for: the entry of the process, and whether it is moved, apart from the steps
-- of protected_daemon.c and policy.c.
use cgroup_research.Prelude.{
  ◌≡◌, refl, ◌⊎◌, inl, inr, Bool, true, false, Option, none, some, List, [], ◌∷◌, eq_ℤ, take, arith,
  Bool-cases, if◌then◌else◌, not, ◌&&◌, ◌||◌,
}
use cgroup_research.Prelude.Word.{Text}
use cgroup_research.Cgroup.Group.{Group, ◌==_group◌}
use cgroup_research.Cgroup.Tree.{eq_text, eq_text_refl, eq_text_eq}
use cgroup_research.ProcessTable.Table.{ProcInfo, Event, Answers}
use cgroup_research.ProcessTable.Entries.{exec_asked}
use cgroup_research.ProcessTable.Refine.{entry_of}
use cgroup_research.Daemon.Policy.{
  at_most_two, is_nil, policy_is_ignored, name_among, policy_is_protected, policy_decide_group,
}
use cgroup_research.Daemon.Events.{Setup, is_own, classify}

-- The name of a process is one of the list.
abbrev pub IsListed : Text → List Text → Type 0
IsListed comm [] = ⊥
IsListed comm (name ∷ names) = (comm ≡ name) ⊎ IsListed comm names

-- The daemon or a child of it executes a program.
abbrev pub is_by_daemon : Setup → Event → Bool
is_by_daemon setup e = eq_ℤ e.pid setup.daemon_pid || eq_ℤ e.ppid setup.daemon_pid

-- A process that is not to be managed: a pid of at most 2, or no name.
abbrev pub is_outside : Event → Bool
is_outside e = at_most_two e.pid || is_nil (take 15 e.comm)

-- Whether an earlier entry was protected.
abbrev pub was_protected : Option ProcInfo → Bool
was_protected none = false
was_protected (some p) = p.is_protected

-- The entry after an exec event, where `listed` is whether the name is in the list of protected names:
-- but for the daemon and its children, protected if it was or is listed, and in the group of this.
abbrev pub exec_entry : Setup → Answers → Event → Bool → Option ProcInfo → ProcInfo
exec_entry setup answers e listed old =
    let p = entry_of (exec_asked answers e) old in
    let guarded = was_protected old || listed in
    if is_by_daemon setup e then p else record p {
      is_protected = guarded;
      group =
          if is_outside e
          then Group.ignored
          else if guarded
          then Group.protected
          else Group.background;
    }

-- Whether the exec event moves its pid to the protected group.
abbrev pub moves_exec : Setup → Event → Bool → Option ProcInfo → Bool
moves_exec setup e listed old =
    not (is_by_daemon setup e) && (not (is_outside e) && (was_protected old || listed))

pub name_among-IsListed :
    (comm : Text) (names : List Text)
    → (name_among comm names ≡ true → IsListed comm names)
      × (IsListed comm names → name_among comm names ≡ true)
unfolding name_among
name_among-IsListed comm [] = (λ h. cc, λ h. absurd h)
name_among-IsListed comm (name ∷ names) =
    let (there, back) = name_among-IsListed comm names in
    (
      λ h. elim (Bool-cases (eq_text comm name)) [
        | inl same ↦ inl (eq_text_eq comm name same)
        | inr other ↦ inr (there (rw other at h))
      ],
      λ h. elim h [
        | inl same ↦ rw (same, eq_text_refl name) refl
        | inr later ↦ rw (back later) (ground arith)
      ],
    )

classified :
    (names : List Text) (answers : Answers) (e : Event) (old : Option ProcInfo) (listed : Bool)
    → name_among (take 15 e.comm) names ≡ listed
    → let guarded = was_protected old || listed in
      classify names (entry_of (exec_asked answers e) old)
      ≡ record (entry_of (exec_asked answers e) old) {
        is_protected = guarded;
        group =
            if is_outside e
            then Group.ignored
            else if guarded
            then Group.protected
            else Group.background;
      }
unfolding classify policy_is_protected policy_decide_group policy_is_ignored
classified names answers e none listed h = ground arith
classified names answers e (some p) listed h = ground arith

own_lem :
    (setup : Setup) (answers : Answers) (e : Event) (old : Option ProcInfo)
    → is_own setup (entry_of (exec_asked answers e) old) ≡ is_by_daemon setup e
own_lem setup answers e none = refl
own_lem setup answers e (some p) = refl

-- The entry after the handler, as protected_daemon.c makes it.
pub exec_entry_lem :
    (setup : Setup) (answers : Answers) (e : Event) (listed : Bool) (old : Option ProcInfo)
    → name_among (take 15 e.comm) setup.names ≡ listed
    → let p = entry_of (exec_asked answers e) old in
      (if is_own setup p then p else classify setup.names p) ≡ exec_entry setup answers e listed old
exec_entry_lem setup answers e listed old h =
    rw (own_lem setup answers e old, classified setup.names answers e old listed h) refl

-- The test before the move.
pub moves_exec_lem :
    (setup : Setup) (answers : Answers) (e : Event) (listed : Bool) (old : Option ProcInfo)
    → name_among (take 15 e.comm) setup.names ≡ listed
    → let p = entry_of (exec_asked answers e) old in
      (not (is_own setup p) && (classify setup.names p).group ==_group Group.protected)
      ≡ moves_exec setup e listed old
moves_exec_lem setup answers e listed old h =
    rw (own_lem setup answers e old, classified setup.names answers e old listed h) (ground arith)
