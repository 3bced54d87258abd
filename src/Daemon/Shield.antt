-- ===== src/Daemon/Shield.antt =====
-- What holds after any sequence of events: the table stays valid, and a protected process is in the
-- protected group of the cgroup tree.
use mathlib.Core.Option.{some-injective}
use cgroup_research.Prelude.{
  ℕ, ◌<◌, ◌≡◌, refl, sym, ◌∙◌, inl, inr, Bool, true, false, Option, none, some, List, [], ◌∷◌, Pid,
  eq_ℤ, eq_ℤ_iff, eq_ℤ_refl, arith, Bool-cases, not, ◌&&◌,
}
use cgroup_research.Prelude.Word.{word}
use cgroup_research.Cgroup.Group.{Group}
use cgroup_research.Cgroup.Interface.{Cgroups}
use cgroup_research.ProcessTable.Table.{ProcInfo, Event, Answers, process_get, process_table_reset}
use cgroup_research.ProcessTable.Entries.{guards, fork_asked}
use cgroup_research.ProcessTable.Search.{IsValid}
use cgroup_research.ProcessTable.Forks.{parent_of}
use cgroup_research.ProcessTable.Removal.{process_table_reset-IsValid}
use cgroup_research.Daemon.Policy.{policy_is_ignored}
use cgroup_research.Daemon.Events.{Daemon, Setup, is_own, protect, handle_event, handle_events}
use cgroup_research.Daemon.Asked.{exec_entry, moves_exec}
use cgroup_research.Daemon.Spec.{Wrote}
use cgroup_research.Daemon.Handling.{Handled, handle_event-Handled, Handled-IsValid}

-- A process that the daemon is to shield: protected, neither the daemon nor a child of it, and not one
-- that the policy ignores.
abbrev pub is_shielded : Setup → ProcInfo → Bool
is_shielded setup p = p.is_protected && (not (is_own setup p) && not (policy_is_ignored p))

not_some : {p : ProcInfo} → none ≡ some p → ⊥
not_some h = cc

split : (x y z : Bool) → (x && (y && z)) ≡ true → (x ≡ true) × ((y ≡ true) × (z ≡ true))
split x y z h = (ground arith, (ground arith, ground arith))

owned : (setup : Setup) (p : ProcInfo) → is_own setup p ≡ true → is_shielded setup p ≡ true → ⊥
owned setup p own h =
    let (x, (y, z)) = split p.is_protected (not (is_own setup p)) (not (policy_is_ignored p)) h in
    ground arith

moves-shielded :
    (setup : Setup) (answers : Answers) (e : Event) (listed : Bool) (old : Option ProcInfo)
    → is_shielded setup (exec_entry setup answers e listed old) ≡ true
    → moves_exec setup e listed old ≡ true
unfolding policy_is_ignored
moves-shielded setup answers e listed none h = ground arith
moves-shielded setup answers e listed (some p) h = ground arith

shielded-protected :
    (setup : Setup) (p : ProcInfo) → is_shielded setup p ≡ true → p.is_protected ≡ true
shielded-protected setup p h =
    (split p.is_protected (not (is_own setup p)) (not (policy_is_ignored p)) h).0

-- A forked child is protected only when the parent is.
fork_asked-protected :
    (e : Event) (parent : Option ProcInfo)
    → (fork_asked e parent).is_protected ≡ true
    → guards parent ≡ true
unfolding fork_asked
fork_asked-protected e parent h = h

module _ {World : Type 0} (cgroups : Cgroups World) (capacity : ℕ) (setup : Setup)
    (c : 0 < capacity) where
  open cgroups use {group_of, group_of-moved, group_of-refused}

  -- In every world that the daemon may meet, the tree lets it move a pid into the protected group.
  pub record Movable (q : Pid) (meets : World → Type 0) : Type 0 where
    pub stays : (r : Pid) (w : World) → meets w → meets (cgroups.move_pid r Group.protected w).1
    pub accepts : (w : World) → meets w → (cgroups.move_pid q Group.protected w).0 ≡ true

  -- A shielded process is in the protected group of the cgroup tree.
  abbrev pub Shielded : Pid → Daemon World → Type 0
  Shielded q s =
      (p : ProcInfo)
      → process_get capacity s.table q ≡ some p
      → is_shielded setup p ≡ true
      → group_of s.world q ≡ some Group.protected

  protect-stays :
      (q : Pid) (meets : World → Type 0) (moves : Bool) (r : Pid) (w : World)
      → Movable q meets
      → meets w
      → meets (protect cgroups capacity setup moves r w)
  protect-stays q meets true r w m h = m.stays r w h
  protect-stays q meets false r w m h = h

  protect-other :
      (moves : Bool) (r q : Pid) (w : World)
      → eq_ℤ r q ≡ false
      → group_of (protect cgroups capacity setup moves r w) q ≡ group_of w q
  protect-other false r q w n = refl
  protect-other true r q w n = elim (Bool-cases (cgroups.move_pid r Group.protected w).0) [
    | inl m ↦ group_of-moved r Group.protected w q m ∙ rw n refl
    | inr m ↦ group_of-refused r Group.protected w q m
  ]

  Wrote-Shielded :
      (q r : Pid) (p : ProcInfo) (moves : Bool) (s s' : Daemon World)
      → (cgroups.move_pid q Group.protected s.world).0 ≡ true
      → Shielded q s
      → (is_shielded setup p ≡ true → moves ≡ true)
      → Wrote cgroups capacity setup s r p moves s'
      → Shielded q s'
  Wrote-Shielded q r p moves s s' m h guard w p' got shielded = elim (Bool-cases (eq_ℤ r q)) [
    | inl same ↦
        let there : r ≡ q = (eq_ℤ_iff r q).0 same in
        let new : some p ≡ some p' = sym (w.gets q ∙ rw same refl) ∙ got in
        let same_entry : p ≡ p' = some-injective p p' new in
        let asked = guard (rw same_entry shielded) in
        rw (w.moved, asked, there)
          (group_of-moved q Group.protected s.world q m ∙ rw (eq_ℤ_refl q) refl)
    | inr n ↦
        let kept : process_get capacity s'.table q ≡ process_get capacity s.table q =
          w.gets q ∙ rw n refl in
        rw w.moved (protect-other moves r q s.world n ∙ h p' (sym kept ∙ got) shielded)
  ]

  Handled-Shielded :
      (answers : Answers) (e : Event) (q : Pid) (s s' : Daemon World) (meets : World → Type 0)
      → Movable q meets
      → meets s.world × Shielded q s
      → Handled cgroups capacity setup c answers e s s'
      → meets s'.world × Shielded q s'
  Handled-Shielded answers e q s s' meets m (f, h) (Handled.execed k listed there back w) =
      let old = process_get capacity s.table e.pid in
      let moves = moves_exec setup e listed old in
      (
        rw w.moved (protect-stays q meets moves e.pid s.world m f),
        Wrote-Shielded q e.pid (exec_entry setup answers e listed old) moves s s'
            (m.accepts s.world f) h (moves-shielded setup answers e listed old) w,
      )
  Handled-Shielded answers e q s s' meets m (f, h) (Handled.forked k w) =
      let parent = parent_of capacity s.table e in
      let moves = guards parent in
      (
        rw w.moved (protect-stays q meets moves e.child_pid s.world m f),
        Wrote-Shielded q e.child_pid (fork_asked e parent) moves s s' (m.accepts s.world f) h
            (λ g. fork_asked-protected e parent (shielded-protected setup (fork_asked e parent) g))
            w,
      )
  Handled-Shielded answers e q s s' meets m (f, h) (Handled.exited k r same) = (
    rw same f,
    λ p got shielded. elim (Bool-cases (eq_ℤ e.pid q)) [
      | inl own ↦ let gone : none ≡ some p = sym (r.gets q ∙ rw own refl) ∙ got in cc
      | inr n ↦
          let kept : process_get capacity s'.table q ≡ process_get capacity s.table q =
            r.gets q ∙ rw n refl in
          rw same (h p (sym kept ∙ got) shielded)
    ],
  )
  Handled-Shielded answers e q s s' meets m h (Handled.refused r o (x, y, same)) = rw same h
  Handled-Shielded answers e q s s' meets m h (Handled.passed_over x same) = rw same h

  -- Every run of events keeps a valid table valid.
  pub handle_events-IsValid :
      (es : List (Answers × Event)) (s : Daemon World)
      → capacity < word
      → IsValid capacity s.table
      → IsValid capacity (handle_events cgroups capacity setup es s).table
  unfolding handle_events
  handle_events-IsValid [] s wide v = v
  handle_events-IsValid ((answers, e) ∷ es) s wide v =
      let h = handle_event-Handled cgroups capacity setup c answers e s wide v in
      handle_events-IsValid es (handle_event cgroups capacity setup answers e s) wide
        (Handled-IsValid cgroups capacity setup c v h)

  handle_events-kept :
      (es : List (Answers × Event)) (s : Daemon World) (q : Pid) (meets : World → Type 0)
      → capacity < word
      → IsValid capacity s.table
      → Movable q meets
      → meets s.world × Shielded q s
      → Shielded q (handle_events cgroups capacity setup es s)
  unfolding handle_events
  handle_events-kept [] s q meets wide v m h = h.1
  handle_events-kept ((answers, e) ∷ es) s q meets wide v m h =
      let done = handle_event-Handled cgroups capacity setup c answers e s wide v in
      let next = handle_event cgroups capacity setup answers e s in
      handle_events-kept es next q meets wide (Handled-IsValid cgroups capacity setup c v done) m
        (Handled-Shielded answers e q s next meets m h done)

  -- The daemon after its set-up.
  abbrev pub started : World → Daemon World
  started w = record { table = process_table_reset capacity; world = w }

  -- After every run of events from the start, the table is valid. A pid that the tree lets the daemon
  -- move into the protected group, in every world that the daemon may meet, is in that group whenever
  -- its entry is protected and of a process that the policy does not ignore and that is neither the
  -- daemon nor a child of it.
  pub handle_events-Shielded :
      (es : List (Answers × Event)) (w : World) (q : Pid) (meets : World → Type 0)
      → capacity < word
      → Movable q meets
      → meets w
      → IsValid capacity (handle_events cgroups capacity setup es (started w)).table
        × Shielded q (handle_events cgroups capacity setup es (started w))
  handle_events-Shielded es w q meets wide m f =
      let (valid, nothing) = process_table_reset-IsValid capacity c in
      let none_yet : Shielded q (started w) =
        λ p got shielded. absurd (not_some (sym (nothing q) ∙ got)) in
      (
        handle_events-IsValid es (started w) wide valid,
        handle_events-kept es (started w) q meets wide valid m (f, none_yet),
      )
