-- ===== src/ProcessTable/Claims.antt =====
-- Where find_upsert_slot lets an insertion write.
use cgroup_research.Prelude.{
  ℕ, zero, suc, ◌+◌, ◌≤◌, ◌<◌, ◌≡◌, refl, inl, inr, Bool, true, false, Option, none, some, Pid,
  positive, arith, Bool-cases, ltb, ◌==◌,
}
use cgroup_research.ProcessTable.Table.{
  SlotState, Table, is_empty, is_occupied, holds, process_hash, find_upsert_from, find_upsert_slot,
  reuse,
}
use cgroup_research.ProcessTable.Search.{
  holds_lem, state-cases, probed, probed-lt, probed-onto, process_hash-lt, Chain, IsValid, Missing,
}

module _ (capacity : ℕ) where
  -- Where an insertion may write.
  pub data Claimed (t : Table) (q : Pid) : Option (ℕ × Bool) → Type 0 where
    found : (i : ℕ) → i < capacity → holds q (t.slots i) ≡ true → Claimed t q (some (i, true))
    fresh :
        (i : ℕ)
        → i < capacity
        → is_occupied (t.slots i).state ≡ false
        → Chain capacity t q i
        → Missing capacity t q
        → Claimed t q (some (i, false))
    full :
        ((i : ℕ) → i < capacity → is_occupied (t.slots i).state ≡ true)
        → Missing capacity t q
        → Claimed t q none

  -- What the loop knows of the probes behind it, and of its first tombstone.
  abbrev Passed : Table → Pid → ℕ → Type 0
  Passed t q p =
      (j : ℕ)
      → j < p
      → (is_empty (t.slots (probed capacity (process_hash capacity q) j)).state ≡ false)
        × (holds q (t.slots (probed capacity (process_hash capacity q) j)) ≡ false)

  abbrev First : Table → Pid → ℕ → Option ℕ → Type 0
  First t q p none =
      (j : ℕ)
      → j < p
      → is_occupied (t.slots (probed capacity (process_hash capacity q) j)).state ≡ true
  First t q p (some i) =
      (i < capacity)
      × (is_occupied (t.slots i).state ≡ false)
      × ((k : ℕ) × (k < p) × (probed capacity (process_hash capacity q) k ≡ i))

  module _ (t : Table) (q : Pid) (c : 0 < capacity) (v : IsValid capacity t) where
    -- After an empty slot, or the whole table, nothing else can hold the pid.
    Missing-of_empty :
        (p : ℕ)
        → Passed t q p
        → is_empty (t.slots (probed capacity (process_hash capacity q) p)).state ≡ true
        → Missing capacity t q
    Missing-of_empty p passed e i l = elim (Bool-cases (holds q (t.slots i))) [
      | inr f ↦ f
      | inl h ↦
          let chain = v.reached q i l h in
          let b = process_hash capacity q in
          let k = chain.steps in
          let arrived : holds q (t.slots (probed capacity b k)) ≡ true = rw (chain.arrives) h in
          elim (Bool-cases (ltb k p)) [
            | inl before ↦ let gone = (passed k (ground arith)).1 in cc
            | inr not_before ↦ elim (Bool-cases (k == p)) [
              | inl here ↦
                  let same : k ≡ p = ground arith in
                  let empty_there : is_empty (t.slots (probed capacity b k)).state ≡ true =
                    rw same e in
                  let (o, full_there, u, x) = holds_lem q (t.slots (probed capacity b k)) arrived in
                  cc
              | inr not_here ↦ let crossed = chain.unbroken p (ground arith) in cc
            ]
          ]
    ]

    Missing-of_all : Passed t q capacity → Missing capacity t q
    Missing-of_all passed i l =
        let (k, few, e) =
          probed-onto capacity (process_hash capacity q) i (process_hash-lt capacity q c) l in
        rw (← e) (passed k few).1

    reuse-Claimed :
        (p i : ℕ)
        → p ≤ capacity
        → Passed t q p
        → First t q p (some i)
        → Missing capacity t q
        → Claimed t q (some (i, false))
    reuse-Claimed p i b passed f m =
        let (l, o, (k, before, e)) = f in
        Claimed.fresh i l o
          (record {
            steps = k;
            few = omega arith;
            arrives = e;
            unbroken = λ j h. (passed j (omega arith)).0;
          })
          m

    -- One more probe has been passed.
    Passed-suc :
        (p : ℕ)
        → Passed t q p
        → is_empty (t.slots (probed capacity (process_hash capacity q) p)).state ≡ false
        → holds q (t.slots (probed capacity (process_hash capacity q) p)) ≡ false
        → Passed t q (suc p)
    Passed-suc p passed e h j l = elim (Bool-cases (j == p)) [
      | inl here ↦ let same : j ≡ p = ground arith in rw same (e, h)
      | inr not_here ↦ passed j (ground arith)
    ]

    First-suc :
        (p : ℕ) (first : Option ℕ)
        → First t q p first
        → is_occupied (t.slots (probed capacity (process_hash capacity q) p)).state ≡ true
        → First t q (suc p) first
    First-suc p none f o = λ j l. elim (Bool-cases (j == p)) [
      | inl here ↦ let same : j ≡ p = ground arith in rw same o
      | inr not_here ↦ f j (ground arith)
    ]
    First-suc p (some i) f o = let (l, n, (k, before, e)) = f in (l, n, (k, omega arith, e))

    First-some : (p i : ℕ) → First t q p (some i) → First t q (suc p) (some i)
    First-some p i f = let (l, n, (k, before, e)) = f in (l, n, (k, omega arith, e))

    -- The end of the loop over the whole table.
    reuse-end :
        (first : Option ℕ)
        → Passed t q capacity
        → First t q capacity first
        → Claimed t q (reuse capacity first)
    reuse-end none passed f = Claimed.full (λ i l. every i l) (Missing-of_all passed)
      where
        every : (i : ℕ) → i < capacity → is_occupied (t.slots i).state ≡ true
        every i l =
            let (k, few, e) =
              probed-onto capacity (process_hash capacity q) i (process_hash-lt capacity q c) l in
            rw (← e) (f k few)
    reuse-end (some i) passed f =
        reuse-Claimed capacity i (omega arith) passed f (Missing-of_all passed)

    -- An empty slot ends the loop.
    empty-Claimed :
        (p : ℕ) (first : Option ℕ)
        → p < capacity
        → (t.slots (probed capacity (process_hash capacity q) p)).state ≡ SlotState.empty
        → Passed t q p
        → First t q p first
        → Claimed t q (elim first [
          | none ↦ some (probed capacity (process_hash capacity q) p, false)
          | some i ↦ some (i, false)
        ])
    empty-Claimed p none l e passed f =
        let b = process_hash capacity q in
        Claimed.fresh (probed capacity b p) (probed-lt capacity b p c) (rw e refl)
          (record { steps = p; few = l; arrives = refl; unbroken = λ j h. (passed j h).0 })
          (Missing-of_empty p passed (rw e refl))
    empty-Claimed p (some i) l e passed f =
        reuse-Claimed p i (omega arith) passed f (Missing-of_empty p passed (rw e refl))

    -- After a tombstone the loop goes on, and remembers the first one.
    tombstone-Claimed :
        (p : ℕ) (first : Option ℕ) (rest rest_after : Option (ℕ × Bool))
        → First t q p first
        → (First t q (suc p) first → Claimed t q rest)
        → Claimed t q rest_after
        → Claimed t q (elim first [ none ↦ rest_after | some i ↦ rest ])
    tombstone-Claimed p none rest rest_after f k m = m
    tombstone-Claimed p (some i) rest rest_after f k m = k (First-some p i f)

    find_upsert_from-Claimed :
        (p left : ℕ) (first : Option ℕ)
        → p + left ≡ capacity
        → Passed t q p
        → First t q p first
        → Claimed t q (find_upsert_from capacity t q (process_hash capacity q) p left first)
    unfolding find_upsert_from
    find_upsert_from-Claimed p zero first e passed f =
        let all : p ≡ capacity = omega arith in reuse-end first (rw all at passed) (rw all at f)
    find_upsert_from-Claimed p (suc left) first e passed f =
        let idx = probed capacity (process_hash capacity q) p in
        elim (state-cases (t.slots idx).state) [
          | inl empty_there ↦
              rw (empty_there, find_upsert_from)
                (empty-Claimed p first (omega arith) empty_there passed f)
          | inr (inl occupied_there) ↦ elim (Bool-cases (holds q (t.slots idx))) [
            | inl here ↦
                rw (occupied_there, here, find_upsert_from)
                  (Claimed.found idx (probed-lt capacity (process_hash capacity q) p c) here)
            | inr not_here ↦
                rw (occupied_there, not_here, find_upsert_from)
                  (find_upsert_from-Claimed (suc p) left first (omega arith)
                    (Passed-suc p passed (rw occupied_there refl) not_here)
                    (First-suc p first f (rw occupied_there refl)))
          ]
          | inr (inr tombstone_there) ↦
              let b = process_hash capacity q in
              let not_here : holds q (t.slots idx) ≡ false = rw tombstone_there refl in
              let next = Passed-suc p passed (rw tombstone_there refl) not_here in
              let mine : First t q (suc p) (some idx) =
                (probed-lt capacity b p c, (rw tombstone_there refl), (p, omega arith, refl)) in
              rw (tombstone_there, find_upsert_from)
                (tombstone-Claimed p first (find_upsert_from capacity t q b (suc p) left first)
                  (find_upsert_from capacity t q b (suc p) left (some idx)) f
                  (λ g. find_upsert_from-Claimed (suc p) left first (omega arith) next g)
                  (find_upsert_from-Claimed (suc p) left (some idx) (omega arith) next mine))
        ]

    -- An insertion finds the slot of the pid, or a slot for it at the end of a chain without empty slots;
    -- it finds none only in a table whose slots are all occupied.
    pub find_upsert_slot-Claimed : positive q ≡ true → Claimed t q (find_upsert_slot capacity t q)
    unfolding find_upsert_slot
    find_upsert_slot-Claimed y = rw y (
        find_upsert_from-Claimed 0 capacity none (omega arith) (λ j l. absurd (omega arith))
          (λ j l. absurd (omega arith)))
