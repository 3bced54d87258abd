-- ===== src/ProcessTable/Forks.antt =====
-- A fork event against the map of processes: the parent and the child share the table.
use cgroup_research.Prelude.{
  ℕ, ◌<◌, ◌≡◌, refl, sym, ◌∙◌, inl, inr, Bool, true, false, Option, none, some, Pid, positive, eq_ℤ,
  eq_ℤ_iff, eq_ℤ_refl, arith, Bool-cases, ap, leb, ◌==◌, if◌then◌else◌,
}
use cgroup_research.Prelude.Word.{word, inc}
use cgroup_research.ProcessTable.Table.{
  SlotState, ProcInfo, Table, Event, zero_info, is_occupied, holds, write_slot, write_info,
  fork_info, claim, prepare_upsert, write_fork, entry_at, fork_child, process_get,
  process_upsert_fork,
}
use cgroup_research.ProcessTable.Entries.{fork_asked, fork_info_lem}
use cgroup_research.ProcessTable.Search.{
  holds_lem, IsValid, Missing, Located, find_existing_slot-Located,
}
use cgroup_research.ProcessTable.Claims.{Claimed, find_upsert_slot-Claimed}
use cgroup_research.ProcessTable.Writes.{process_get_there, process_get-Missing}
use cgroup_research.ProcessTable.Refine.{not_both, apart, Upserted, write_entry, claim-Upserted}

-- The parent that a fork event sees: none where the child takes its pid.
abbrev pub parent_of : ℕ → Table → Event → Option ProcInfo
parent_of capacity t e = if eq_ℤ e.child_pid e.pid then none else process_get capacity t e.pid

module _ (capacity : ℕ) (c : 0 < capacity) where
  fork_info_self : (e : Event) → fork_info e (some (fork_child e)) ≡ fork_info e none
  unfolding fork_info
  fork_info_self e = refl

  -- The pointer to the parent shows the parent, unless it shows the child.
  parent_seen :
      (t u : Table) (e : Event) (i : ℕ) {parent : Option ℕ}
      → IsValid capacity t
      → ((j : ℕ) → (i == j) ≡ false → u.slots j ≡ t.slots j)
      → ((j : ℕ)
          → j < capacity
          → holds e.pid (t.slots j) ≡ true
          → (i == j) ≡ eq_ℤ e.child_pid e.pid)
      → Located capacity t e.pid parent
      → fork_info e (entry_at (write_info i (fork_child e) u) parent)
        ≡ fork_info e (parent_of capacity t e)
  parent_seen t u e i v near slot (Located.missing m) =
      let unseen = process_get-Missing capacity c t e.pid v m in
      elim (Bool-cases (eq_ℤ e.child_pid e.pid)) [ inl s ↦ rw s refl | inr n ↦ rw (n, unseen) refl ]
  parent_seen t u e i v near slot (Located.there j k g) =
      let seen = process_get_there capacity c t e.pid j v k g in
      elim (Bool-cases (eq_ℤ e.child_pid e.pid)) [
        | inl s ↦ let same : (i == j) ≡ true = slot j k g ∙ s in rw (same, s) (fork_info_self e)
        | inr n ↦
            let other : (i == j) ≡ false = slot j k g ∙ n in
            let kept : (u.slots j).info ≡ (t.slots j).info = ap (λ x. x.info) (near j other) in
            rw (n, seen, other) (ap (λ x. fork_info e (some x)) kept)
      ]

  claimed_apart :
      (t : Table) (q r : Pid) (i j : ℕ)
      → IsValid capacity t
      → i < capacity
      → j < capacity
      → holds q (t.slots i) ≡ true
      → holds r (t.slots j) ≡ true
      → (i == j) ≡ eq_ℤ q r
  claimed_apart t q r i j v l k h g =
      let (o, x, y, first) = holds_lem q (t.slots i) h in
      let (o', x', y', second) = holds_lem r (t.slots j) g in
      elim (Bool-cases (i == j)) [
        | inl e ↦
            let there : i ≡ j = ground (arith, e) in
            let same : q ≡ r = sym first ∙ rw there second in rw (e, same) (sym (eq_ℤ_refl r))
        | inr n ↦ elim (Bool-cases (eq_ℤ q r)) [
          | inr d ↦ rw (n, d) refl
          | inl s ↦
              let same : q ≡ r = (eq_ℤ_iff q r).0 s in
              absurd (apart (v.once r i j l k (rw (← same) h) g) n)
        ]
      ]

  fresh_apart :
      (t : Table) (q r : Pid) (i j : ℕ)
      → is_occupied (t.slots i).state ≡ false
      → j < capacity
      → holds r (t.slots j) ≡ true
      → Missing capacity t q
      → (i == j) ≡ eq_ℤ q r
  fresh_apart t q r i j o k g m =
      let (there, x, y, z) = holds_lem r (t.slots j) g in
      elim (Bool-cases (i == j)) [
        | inl e ↦ let same : i ≡ j = ground (arith, e) in absurd (not_both o (rw same there))
        | inr n ↦ elim (Bool-cases (eq_ℤ q r)) [
          | inr d ↦ rw (n, d) refl
          | inl s ↦ let same : q ≡ r = (eq_ℤ_iff q r).0 s in absurd (not_both (m j k) (rw same g))
        ]
      ]

  write_fork_lem :
      (t : Table) (e : Event) {parent : Option ℕ} {r : Option (ℕ × Bool)}
      → IsValid capacity t
      → Located capacity t e.pid parent
      → Claimed capacity t e.child_pid r
      → write_fork capacity e parent (claim capacity t r)
        ≡ write_entry capacity c
            (λ b old. fork_info e (parent_of capacity t e))
            (claim capacity t r)
  unfolding write_fork claim
  write_fork_lem t e v located (Claimed.found i l h) =
      rw
        (parent_seen t t e i v (λ j n. refl)
          (λ j k g. claimed_apart t e.child_pid e.pid i j v l k h g) located)
        refl
  write_fork_lem t e v located (Claimed.fresh i l o chain m) =
      let written = write_slot i (record { state = SlotState.occupied; info = zero_info }) t in
      let counted = record written { occupied_count = inc t.occupied_count } in
      elim (Bool-cases (leb capacity t.occupied_count)) [
        | inl crowded ↦ rw crowded refl
        | inr room ↦
            rw
              (
                room,
                parent_seen t counted e i v (λ j n. rw n refl)
                    (λ j k g. fresh_apart t e.child_pid e.pid i j o k g m) located,
              )
              refl
      ]
  write_fork_lem t e v located (Claimed.full all m) = refl

  -- A fork event on a valid table writes a fresh entry of the child and no other: used, with the user and
  -- the name of the event, of which 15 bytes are kept, with the parent of the event, and protected, of
  -- its own and by inheritance, exactly when the entry of the parent is protected and the child does not
  -- have the pid of its parent; its group is then the protected one, and otherwise unknown. Only a
  -- table full of other processes refuses it.
  pub process_upsert_fork-Upserted :
      (t : Table) (e : Event)
      → capacity < word
      → IsValid capacity t
      → positive e.pid ≡ true
      → positive e.child_pid ≡ true
      → Upserted capacity c t e.child_pid
          (λ b old. fork_asked e (parent_of capacity t e))
          (process_upsert_fork capacity t e)
  unfolding process_upsert_fork prepare_upsert fork_asked
  process_upsert_fork-Upserted t e wide v y z =
      let parent = parent_of capacity t e in
      let located = find_existing_slot-Located capacity t e.pid c v in
      let claimed = find_upsert_slot-Claimed capacity t e.child_pid c v z in
      rw (y, z, write_fork_lem t e v located claimed, fork_info_lem e parent)
        (claim-Upserted capacity c t e.child_pid (λ b old. fork_asked e parent) wide v z
          (λ b old. (refl, refl)) claimed)
