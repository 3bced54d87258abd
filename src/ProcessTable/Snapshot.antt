-- ===== src/ProcessTable/Snapshot.antt =====
-- `process_snapshot` of a valid table.
use cgroup_research.Prelude.{
  ℕ, zero, suc, ◌+◌, ◌≤◌, ◌<◌, ◌≡◌, refl, sym, ap, ◌∙◌, inl, inr, true, false, Option, none, some,
  List, [], ◌∷◌, length, Pid, eq_ℤ, eq_ℤ_iff, arith, Bool-cases, ltb, ◌==◌, if◌then◌else◌,
}
use cgroup_research.Prelude.Word.{word}
use cgroup_research.ProcessTable.Table.{
  ProcInfo, Table, ProcessRc, is_occupied, holds, process_get, count_occupied, copy_occupied,
  snapshot_counted, process_snapshot,
}
use cgroup_research.ProcessTable.Search.{holds_lem, number, IsValid, Missing}
use cgroup_research.ProcessTable.Writes.{
  number-le, process_get_there, process_get-Missing, holds-cases,
}

-- The first process of a list with a pid.
unfoldable pub find_info : List ProcInfo → Pid → Option ProcInfo
find_info [] q = none
find_info (p ∷ ps) q = if eq_ℤ p.pid q then some p else find_info ps q

-- The occupied slots from `i` on.
number_from : Table → ℕ → ℕ → ℕ
number_from t i zero = 0
number_from t i (suc left) =
    (if is_occupied (t.slots i).state then 1 else 0) + number_from t (suc i) left

number_from-suc :
    (t : Table) (i left : ℕ)
    → number_from t i (suc left)
      ≡ (if is_occupied (t.slots (i + left)).state then 1 else 0) + number_from t i left
unfolding number_from
number_from-suc t i zero = let e : i + zero ≡ i = omega arith in rw e refl
number_from-suc t i (suc left) =
    let ih = number_from-suc t (suc i) left in
    let e : i + suc left ≡ suc i + left = omega arith in rw e (omega (arith, ih))

number_from-zero : (t : Table) (n : ℕ) → number_from t 0 n ≡ number t n
unfolding number_from
number_from-zero t zero = refl
number_from-zero t (suc n) =
    let e : 0 + n ≡ n = omega arith in
    let last = number_from-suc t 0 n in
    let here : number_from t 0 (suc n)
        ≡ (if is_occupied (t.slots n).state then 1 else 0) + number_from t 0 n =
      rw e at last in
    omega (arith, here, number_from-zero t n)

apart : {i j : ℕ} → i ≡ j → (i == j) ≡ false → ⊥
apart h e = ground arith

module _ (capacity : ℕ) (t : Table) (v : IsValid capacity t) where
  -- The first pass finds no inconsistency, and counts the occupied slots.
  count_occupied_lem :
      (i left actual : ℕ)
      → i + left ≤ capacity
      → actual + number_from t i left < word
      → count_occupied capacity t i left actual ≡ some (actual + number_from t i left)
  unfolding count_occupied number_from
  count_occupied_lem i zero actual h b = ground arith
  count_occupied_lem i (suc left) actual h b = elim (Bool-cases (is_occupied (t.slots i).state)) [
    | inl o ↦ ground (
      arith,
      v.used i (omega arith) o,
      v.real i (omega arith) o,
      count_occupied_lem (suc i) left (actual + 1) (omega arith) (ground arith),
    )
    | inr n ↦ ground (
      arith,
      v.clean i (omega arith) n,
      count_occupied_lem (suc i) left actual (omega arith) (ground arith),
    )
  ]

  length-copy_occupied :
      (i left : ℕ) → length (copy_occupied capacity t i left) ≡ number_from t i left
  unfolding copy_occupied number_from
  length-copy_occupied i zero = refl
  length-copy_occupied i (suc left) = ground (arith, length-copy_occupied (suc i) left)

  occupied-holds :
      (i : ℕ) (q : Pid)
      → i < capacity
      → is_occupied (t.slots i).state ≡ true
      → eq_ℤ (t.slots i).info.pid q ≡ true
      → holds q (t.slots i) ≡ true
  occupied-holds i q l o e = ground (arith, v.used i l o)

  -- A process in a slot that is copied is found in the copy; one in no such slot is not.
  copy_occupied-there :
      (i left : ℕ) (q : Pid) (j : ℕ)
      → i + left ≤ capacity
      → i ≤ j
      → j < i + left
      → holds q (t.slots j) ≡ true
      → find_info (copy_occupied capacity t i left) q ≡ some (t.slots j).info
  unfolding copy_occupied find_info
  copy_occupied-there i zero q j b l h g = absurd (omega arith)
  copy_occupied-there i (suc left) q j b l h g = elim (Bool-cases (i == j)) [
    | inl e ↦
        let same : i ≡ j = ground arith in
        let (o, x, u, pid_there) = holds_lem q (t.slots j) g in
        let o_here : is_occupied (t.slots i).state ≡ true = rw same o in
        let pid_here : (t.slots i).info.pid ≡ q = rw same pid_there in
        let matches : eq_ℤ (t.slots i).info.pid q ≡ true =
          (eq_ℤ_iff (t.slots i).info.pid q).1 pid_here in
        rw (o_here, matches) (rw same refl)
    | inr e ↦
        let later =
          copy_occupied-there (suc i) left q j (omega arith) (ground arith) (omega arith) g in
        elim (Bool-cases (is_occupied (t.slots i).state)) [
          | inr n ↦ rw n later
          | inl o ↦ elim (Bool-cases (eq_ℤ (t.slots i).info.pid q)) [
            | inl same_pid ↦
                let same : i ≡ j =
                  v.once q i j (omega arith) (omega arith)
                    (occupied-holds i q (omega arith) o same_pid) g in
                absurd (apart same e)
            | inr other ↦ rw (o, other) later
          ]
        ]
  ]

  copy_occupied-Missing :
      (i left : ℕ) (q : Pid)
      → i + left ≤ capacity
      → Missing capacity t q
      → find_info (copy_occupied capacity t i left) q ≡ none
  unfolding copy_occupied find_info
  copy_occupied-Missing i zero q b m = refl
  copy_occupied-Missing i (suc left) q b m = elim (Bool-cases (is_occupied (t.slots i).state)) [
    | inr n ↦ rw n (copy_occupied-Missing (suc i) left q (omega arith) m)
    | inl o ↦ elim (Bool-cases (eq_ℤ (t.slots i).info.pid q)) [
      | inl same_pid ↦
          let here = occupied-holds i q (omega arith) o same_pid in
          let gone = m i (omega arith) in cc
      | inr other ↦ rw (o, other) (copy_occupied-Missing (suc i) left q (omega arith) m)
    ]
  ]

  -- What a snapshot gives: the processes of the table, as many as it counts, each found under its pid
  -- as `process_get` finds it; or, where the buffer is too small, nothing.
  pub data Snapped (room : ℕ) : ProcessRc × List ProcInfo → Type 0 where
    done :
        (ps : List ProcInfo)
        → t.occupied_count ≤ room
        → length ps ≡ t.occupied_count
        → ((q : Pid) → find_info ps q ≡ process_get capacity t q)
        → Snapped room (ProcessRc.ok, ps)
    no_space : room < t.occupied_count → Snapped room (ProcessRc.no_space, [])

  -- A snapshot of a valid table is never found inconsistent: it gives all the processes, as many as the
  -- table counts, each under its pid as `process_get` finds it, or nothing where the buffer is too small.
  pub process_snapshot-Snapped :
      (room : ℕ)
      → 0 < capacity
      → capacity < word
      → Snapped room (process_snapshot capacity t (some room))
  unfolding process_snapshot snapshot_counted
  process_snapshot-Snapped room c wide =
      let total = number_from-zero t capacity in
      let counted : count_occupied capacity t 0 capacity 0 ≡ some t.occupied_count =
        count_occupied_lem 0 capacity 0 (omega arith) (omega (arith, total, number-le t capacity))
        ∙ ap some (omega (arith, total, v.counted)) in
      let agrees : (t.occupied_count == t.occupied_count) ≡ true = ground arith in
      elim (Bool-cases (ltb room t.occupied_count)) [
        | inl small ↦ rw (counted, agrees, small) (Snapped.no_space (ground arith))
        | inr fits ↦
            rw (counted, agrees, fits)
              (Snapped.done (copy_occupied capacity t 0 capacity) (ground arith)
                (length-copy_occupied 0 capacity ∙ total ∙ sym v.counted) (λ q. finds q c))
      ]
    where
      finds :
          (q : Pid)
          → 0 < capacity
          → find_info (copy_occupied capacity t 0 capacity) q ≡ process_get capacity t q
      finds q c = elim (holds-cases capacity c t q v) [
        | inl (j, l, h) ↦
            copy_occupied-there 0 capacity q j (omega arith) (omega arith) (omega arith) h
            ∙ sym (process_get_there capacity c t q j v l h)
        | inr m ↦
            copy_occupied-Missing 0 capacity q (omega arith) m
            ∙ sym (process_get-Missing capacity c t q v m)
      ]
