-- ===== src/Daemon/Spec.antt =====
-- What process events mean for the map of processes, and that `handle_event` does it.
use cgroup_research.Prelude.{
  ℕ, ◌+◌, ◌<◌, ◌≡◌, refl, ◌∙◌, ◌⊎◌, inl, inr, Bool, true, false, Option, none, some, List, Pid,
  positive, eq_ℤ, arith, Bool-cases, if◌then◌else◌, not, ◌&&◌,
}
use cgroup_research.Prelude.Word.{Text}
use cgroup_research.Cgroup.Group.{Group, ◌==_group◌}
use cgroup_research.Cgroup.Interface.{Cgroups}
use cgroup_research.ProcessTable.Table.{
  SlotState, ProcInfo, Table, Event, Answers, holds, is_occupied, write_info, process_get,
}
use cgroup_research.ProcessTable.Entries.{exec_asked, guards, fork_asked}
use cgroup_research.ProcessTable.Search.{holds_lem, IsValid}
use cgroup_research.ProcessTable.Writes.{Written}
use cgroup_research.ProcessTable.Refine.{
  update, entry_of, Upserted, place-IsValid, place-get, ==_refl, occupied_lem, holds_other,
}
use cgroup_research.ProcessTable.Forks.{parent_of}
use cgroup_research.Daemon.Events.{
  Daemon, Setup, is_own, classify, inherit, is_guarding, handle_exec, handle_fork,
}

module _ {World : Type 0} (cgroups : Cgroups World) (capacity : ℕ) (setup : Setup) where
  -- An entry that was written is changed in place.
  rewrite-lem :
      (t : Table) (q : Pid) (i : ℕ) (p : ProcInfo)
      → 0 < capacity
      → IsValid capacity t
      → i < capacity
      → positive q ≡ true
      → holds q (t.slots i) ≡ true
      → p.pid ≡ q
      → p.used ≡ true
      → IsValid capacity (write_info i p t)
        × ((r : Pid)
            → process_get capacity (write_info i p t) r
              ≡ update q (some p) (process_get capacity t) r)
  rewrite-lem t q i p c v l y h e u =
      let (o, x, used, same) = holds_lem q (t.slots i) h in
      let state_there : (t.slots i).state ≡ SlotState.occupied = occupied_lem (t.slots i).state o in
      let w : Written t i (record { state = SlotState.occupied; info = p }) (write_info i p t) =
        record { same = λ j n. rw n refl; here = rw (==_refl i, state_there) refl } in
      let counted : (write_info i p t).occupied_count
            + (if is_occupied (t.slots i).state then 1 else 0)
          ≡ t.occupied_count + 1 =
        rw o refl in
      let only =
        λ (j : ℕ) (k : j < capacity) (g : holds q (t.slots j) ≡ true). v.once q j i k l g h in
      let mine = λ (r : Pid) (n : eq_ℤ q r ≡ false). holds_other q r (t.slots i) same n in
      (
        place-IsValid capacity c t q i p (write_info i p t) v l w e u y (v.reached q i l h) only
            mine counted,
        place-get capacity c t q i p (write_info i p t) v l w e u y (v.reached q i l h) only mine
            counted,
      )

  -- What the handler leaves of the table and the world: the entry of one pid is written, and the pid is
  -- moved or not; or the table was full, and nothing has changed.
  pub record Wrote (s : Daemon World) (q : Pid) (p : ProcInfo) (moves : Bool) (s' : Daemon World)
      : Type 0 where
    pub valid : IsValid capacity s'.table
    pub gets :
        (r : Pid)
        → process_get capacity s'.table r ≡ update q (some p) (process_get capacity s.table) r
    pub moved :
        s'.world ≡ (if moves then (cgroups.move_pid q Group.protected s.world).1 else s.world)

  abbrev pub Refused : Daemon World → Pid → Daemon World → Type 0
  Refused s q s' =
      (s.table.occupied_count ≡ capacity) × (process_get capacity s.table q ≡ none) × (s' ≡ s)

  entry_of-const : (p : ProcInfo) (old : Option ProcInfo) → entry_of (λ b x. p) old ≡ p
  entry_of-const p none = refl
  entry_of-const p (some old) = refl

  classify-pid :
      (names : List Text) (p : ProcInfo)
      → ((classify names p).pid ≡ p.pid) × ((classify names p).used ≡ p.used)
  unfolding classify
  classify-pid names p = ground arith

  -- The second write to an entry is the one that counts.
  update-again :
      (t t' : Table) (q r : Pid) (x y : Option ProcInfo)
      → process_get capacity t' r ≡ update q x (process_get capacity t) r
      → update q y (process_get capacity t') r ≡ update q y (process_get capacity t) r
  update-again t t' q r x y h = elim (Bool-cases (eq_ℤ q r)) [
    | inl e ↦ rw e refl
    | inr n ↦ rw (n, h, n) refl
  ]

  pub handle_exec-Wrote :
      (answers : Answers) (e : Event) (s : Daemon World) {r : Option (Table × ℕ)} (c : 0 < capacity)
      → IsValid capacity s.table
      → positive e.pid ≡ true
      → Upserted capacity c s.table e.pid (exec_asked answers e) r
      → let old = process_get capacity s.table e.pid in
        let p = entry_of (exec_asked answers e) old in
        Wrote s e.pid
          (if is_own setup p then p else classify setup.names p)
          (not (is_own setup p) && (classify setup.names p).group ==_group Group.protected)
          (handle_exec cgroups capacity setup r s)
        ⊎ Refused s e.pid (handle_exec cgroups capacity setup r s)
  unfolding handle_exec
  handle_exec-Wrote answers e s c v y (Upserted.full a b) = inr (a, b, refl)
  handle_exec-Wrote answers e s c v y (Upserted.done t' i l v' gets h entry) =
      let old = process_get capacity s.table e.pid in
      let p = entry_of (exec_asked answers e) old in
      let (o, x, used, same) = holds_lem e.pid (t'.slots i) h in
      let (kept, kept_used) = classify-pid setup.names (t'.slots i).info in
      let (w, wrote) =
        rewrite-lem t' e.pid i (classify setup.names (t'.slots i).info) c v' l y h (kept ∙ same)
          (kept_used ∙ used) in
      inl (elim (Bool-cases (is_own setup p)) [
        | inl own ↦
            let own_there : is_own setup (t'.slots i).info ≡ true = rw entry own in
            rw (own_there, own) (record { valid = v'; gets = gets; moved = refl })
        | inr other ↦
            let pid_there : (classify setup.names (t'.slots i).info).pid ≡ e.pid = kept ∙ same in
            let other_there : is_own setup (t'.slots i).info ≡ false = rw entry other in
            rw (other_there, other)
              (record {
                valid = w;
                gets = λ r.
                    wrote r
                    ∙ rw entry (
                        update-again s.table t' e.pid r (some p) (some (classify setup.names p))
                          (gets r));
                moved = rw (pid_there, entry) refl;
              })
      ])

  -- The child of a guarding process is made to guard, by the upsert already.
  fork_asked-guarding :
      (e : Event) (parent : Option ProcInfo)
      → is_guarding cgroups capacity setup (some (fork_asked e parent)) ≡ guards parent
        × (guards parent ≡ true → inherit (fork_asked e parent) ≡ fork_asked e parent)
  unfolding fork_asked
  fork_asked-guarding e parent = (refl, λ g. rw g refl)

  is_guarding_lem :
      (parent : Option ProcInfo) → is_guarding cgroups capacity setup parent ≡ guards parent
  is_guarding_lem none = refl
  is_guarding_lem (some p) = refl

  pub handle_fork-Wrote :
      (e : Event) (s : Daemon World) {r : Option (Table × ℕ)} (c : 0 < capacity)
      → IsValid capacity s.table
      → positive e.child_pid ≡ true
      → Upserted capacity c s.table e.child_pid
          (λ b old. fork_asked e (parent_of capacity s.table e))
          r
      → let parent = parent_of capacity s.table e in
        Wrote s e.child_pid
          (fork_asked e parent)
          (guards parent)
          (handle_fork cgroups capacity setup e r s)
        ⊎ Refused s e.child_pid (handle_fork cgroups capacity setup e r s)
  unfolding handle_fork
  handle_fork-Wrote e s c v y (Upserted.full a b) = inr (a, b, refl)
  handle_fork-Wrote e s c v y (Upserted.done t' i l v' gets h entry) =
      let parent = parent_of capacity s.table e in
      let child = fork_asked e parent in
      let sees = is_guarding cgroups capacity setup in
      let (o, x, used, same) = holds_lem e.child_pid (t'.slots i) h in
      let (guarding, settled) = fork_asked-guarding e parent in
      let fresh = entry_of-const child (process_get capacity s.table e.child_pid) in
      let entry' : (t'.slots i).info ≡ child = entry ∙ fresh in
      let gets' = λ (r : Pid). gets r ∙ rw fresh refl in
      let kept : sees (process_get capacity t' e.pid) ≡ guards parent =
        elim (Bool-cases (eq_ℤ e.child_pid e.pid)) [
          | inl own ↦ rw (gets' e.pid, own) (fork_asked-guarding e none).0
          | inr n ↦ rw (gets' e.pid, n) (is_guarding_lem (process_get capacity s.table e.pid))
        ] in
      inl (elim (Bool-cases (guards parent)) [
        | inl g ↦
            let (w, wrote) =
              rewrite-lem t' e.child_pid i (inherit (t'.slots i).info) c v' l y h same used in
            rw (kept, g)
              (record {
                valid = w;
                gets = λ r.
                    wrote r
                    ∙ rw (entry', settled g)
                        (update-again s.table t' e.child_pid r (some child) (some child) (gets' r));
                moved = rw same refl;
              })
        | inr n ↦ rw (kept, n) (record { valid = v'; gets = gets'; moved = refl })
      ])
