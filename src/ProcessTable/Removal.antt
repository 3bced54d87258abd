-- ===== src/ProcessTable/Removal.antt =====
-- A removal and a reset against the map of processes.
use cgroup_research.Prelude.{
  ℕ, zero, suc, ◌-◌, ◌<◌, ◌≡◌, refl, inl, inr, true, false, Option, none, Pid, eq_ℤ, eq_ℤ_iff,
  arith, Bool-cases, ltb, ◌==◌, if◌then◌else◌,
}
use cgroup_research.ProcessTable.Table.{
  SlotState, Slot, Table, zero_info, holds, write_slot, process_get, process_remove, remove_at,
  process_table_reset,
}
use cgroup_research.ProcessTable.Search.{
  holds_lem, number, IsValid, Located, find_existing_slot-Located,
}
use cgroup_research.ProcessTable.Writes.{
  Written, Fits, number-positive, process_get-Missing, write-IsValid, get-Written_other,
}
use cgroup_research.ProcessTable.Refine.{update, ==_refl, not_both, apart, holds_other}

module _ (capacity : ℕ) (c : 0 < capacity) where
  -- A removal from a valid table.
  pub record Removed (t : Table) (q : Pid) (t' : Table) : Type 0 where
    pub valid : IsValid capacity t'
    pub gets : (r : Pid) → process_get capacity t' r ≡ update q none (process_get capacity t) r

  Fits-tombstone :
      (t : Table) (i : ℕ)
      → Fits capacity t i (record { state = SlotState.tombstone; info = zero_info })
  Fits-tombstone t i = record {
    used = λ o. cc;
    real = λ o. cc;
    clean = λ o. refl;
    visible = refl;
    only = λ q j l h h'. cc;
    chain = λ q h. absurd (not_both refl h);
  }

  remove_at-Removed :
      (t : Table) (q : Pid) {r : Option ℕ}
      → IsValid capacity t
      → Located capacity t q r
      → Removed t q (remove_at capacity t r)
  unfolding remove_at
  remove_at-Removed t q v (Located.missing m) = record {
    valid = v;
    gets = λ r. elim (Bool-cases (eq_ℤ q r)) [
      | inl e ↦
          let same : q ≡ r = (eq_ℤ_iff q r).0 e in
          rw (e, ← same) (process_get-Missing capacity c t q v m)
      | inr n ↦ rw n refl
    ];
  }
  remove_at-Removed t q v (Located.there i l h) =
      let gone : Slot = record { state = SlotState.tombstone; info = zero_info } in
      let (o, x, u, same_pid) = holds_lem q (t.slots i) h in
      let some_there : 0 < t.occupied_count =
        omega (arith, v.counted, number-positive t i capacity l o) in
      let less = record (write_slot i gone t) { occupied_count = t.occupied_count - 1 } in
      let w : Written t i gone less = record {
        same = λ j n. rw n refl;
        here = rw (==_refl i) refl;
      } in
      let v' =
        write-IsValid capacity t i gone less w (Fits-tombstone t i) v l (rw o (omega arith)) in
      let nonzero : ltb 0 t.occupied_count ≡ true = ground arith in
      rw nonzero (record {
        valid = v';
        gets = λ r. elim (Bool-cases (eq_ℤ q r)) [
          | inl e ↦
              let same : q ≡ r = (eq_ℤ_iff q r).0 e in
              rw (e, ← same)
                (process_get-Missing capacity c less q v' (λ j k. emptied t q i j v l h k))
          | inr n ↦ rw n (
              get-Written_other capacity t i gone less w (Fits-tombstone t i) r c v v'
                (holds_other q r (t.slots i) same_pid n) refl)
        ];
      })
    where
      emptied :
          (t : Table) (q : Pid) (i j : ℕ)
          → IsValid capacity t
          → i < capacity
          → holds q (t.slots i) ≡ true
          → j < capacity
          → holds q (
              if i == j
              then record { state = SlotState.tombstone; info = zero_info }
              else t.slots j)
            ≡ false
      emptied t q i j v l h k = elim (Bool-cases (i == j)) [
        | inl e ↦ rw e refl
        | inr e ↦ rw e (elim (Bool-cases (holds q (t.slots j))) [
          | inr f ↦ f
          | inl g ↦ let same : i ≡ j = v.once q i j l k h g in absurd (apart same e)
        ])
      ]

  -- A removal from a valid table leaves a valid table that no longer has the pid, and has every other
  -- process as before.
  pub process_remove-Removed :
      (t : Table) (q : Pid) → IsValid capacity t → Removed t q (process_remove capacity t q)
  unfolding process_remove
  process_remove-Removed t q v =
      remove_at-Removed t q v (find_existing_slot-Located capacity t q c v)

  -- After a reset the table is valid and has no process.
  pub process_table_reset-IsValid :
      IsValid capacity (process_table_reset capacity)
      × ((r : Pid) → process_get capacity (process_table_reset capacity) r ≡ none)
  process_table_reset-IsValid = (valid, λ r. process_get-Missing capacity c _ r valid (λ i l. refl))
    where
      none_there : (n : ℕ) → number (process_table_reset capacity) n ≡ 0
      none_there zero = refl
      none_there (suc n) = omega (arith, none_there n)

      valid : IsValid capacity (process_table_reset capacity)
      valid = record {
        used = λ i l o. cc;
        real = λ i l o. cc;
        clean = λ i l o. refl;
        once = λ q i j l k h h'. cc;
        reached = λ q i l h. absurd (not_both refl h);
        counted = omega (arith, none_there capacity);
      }
