-- ===== src/ProcessTable/Search.antt =====
-- The search loops of process.c: which slot they end at.
use native.Mathlib.Nat.{mod-lt, mod-eq_of_lt, mod-eq-sub-mod}
use cgroup_research.Prelude.{
  ℕ, zero, suc, ◌+◌, ◌-◌, ◌%◌, ◌≤◌, ◌<◌, ◌≡◌, refl, ◌∙◌, ◌⊎◌, inl, inr, true, false, Option, none,
  some, Option-cases, Pid, ℤ, positive, eq_ℤ_iff, arith, Bool-cases, leb, if◌then◌else◌, ◌==◌,
}
use cgroup_research.ProcessTable.Table.{
  SlotState, Slot, Table, is_empty, is_occupied, holds, process_hash, find_from, find_existing_slot,
}

-- What a slot that holds a pid is known to be.
pub holds_lem :
    (q : Pid) (s : Slot)
    → holds q s ≡ true
    → (is_occupied s.state ≡ true)
      × (is_empty s.state ≡ false)
      × (s.info.used ≡ true)
      × (s.info.pid ≡ q)
holds_lem q s h = ground (arith, eq_ℤ_iff s.info.pid q)

pub state-cases :
    (s : SlotState) → (s ≡ SlotState.empty) ⊎ (s ≡ SlotState.occupied) ⊎ (s ≡ SlotState.tombstone)
state-cases SlotState.empty = inl refl
state-cases SlotState.occupied = inr (inl refl)
state-cases SlotState.tombstone = inr (inr refl)

-- How many of the first slots are occupied.
abbrev pub number : Table → ℕ → ℕ
number t zero = 0
number t (suc n) = (if is_occupied (t.slots n).state then 1 else 0) + number t n

module _ (capacity : ℕ) where
  -- The slot of a probe of the chain that starts at `b`.
  abbrev pub probed : ℕ → ℕ → ℕ
  probed b k = (b + k) % capacity

  pub probed-lt : (b k : ℕ) → 0 < capacity → probed b k < capacity
  probed-lt b k h = mod-lt (b + k) h

  pub process_hash-lt : (q : Pid) → 0 < capacity → process_hash capacity q < capacity
  unfolding process_hash
  process_hash-lt (ℤ.pos n) h = mod-lt n h
  process_hash-lt (ℤ.negsuc n) h = mod-lt _ h

  -- Every slot is probed.
  pub probed-onto :
      (b i : ℕ) → b < capacity → i < capacity → (k : ℕ) × (k < capacity) × (probed b k ≡ i)
  probed-onto b i h l = elim (Bool-cases (leb b i)) [
    | inl below ↦
        (i - b, ground arith, (let e : b + (i - b) ≡ i = ground arith in rw e (mod-eq_of_lt l)))
    | inr above ↦ (
      i + capacity - b,
      ground arith,
      (let e : b + (i + capacity - b) ≡ i + capacity = ground arith in
          let f : i + capacity - capacity ≡ i = omega arith in
          rw e (
            mod-eq-sub-mod {n = i + capacity} {m = capacity} (omega arith)
            ∙ rw f (mod-eq_of_lt l))),
    )
  ]

  -- The chain of a pid leads to a slot: no empty slot comes before it.
  pub record Chain (t : Table) (q : Pid) (i : ℕ) : Type 0 where
    pub steps : ℕ
    pub few : steps < capacity
    pub arrives : probed (process_hash capacity q) steps ≡ i
    pub unbroken :
        (j : ℕ) → j < steps → is_empty (t.slots (probed (process_hash capacity q) j)).state ≡ false

  -- The occupied slots are those that hold a process, each pid has one at most, the search for it
  -- comes to it, and they are counted.
  pub record IsValid (t : Table) : Type 0 where
    pub used :
        (i : ℕ) → i < capacity → is_occupied (t.slots i).state ≡ true → (t.slots i).info.used ≡ true
    pub real :
        (i : ℕ)
        → i < capacity
        → is_occupied (t.slots i).state ≡ true
        → positive (t.slots i).info.pid ≡ true
    pub clean :
        (i : ℕ)
        → i < capacity
        → is_occupied (t.slots i).state ≡ false
        → (t.slots i).info.used ≡ false
    pub once :
        (q : Pid) (i j : ℕ)
        → i < capacity
        → j < capacity
        → holds q (t.slots i) ≡ true
        → holds q (t.slots j) ≡ true
        → i ≡ j
    pub reached : (q : Pid) (i : ℕ) → i < capacity → holds q (t.slots i) ≡ true → Chain t q i
    pub counted : t.occupied_count ≡ number t capacity

  -- No slot holds a pid.
  abbrev pub Missing : Table → Pid → Type 0
  Missing t q = (i : ℕ) → i < capacity → holds q (t.slots i) ≡ false

  module _ (t : Table) (q : Pid) (b : ℕ) where
    find_from_sound :
        (p left i : ℕ)
        → 0 < capacity
        → find_from capacity t q b p left ≡ some i
        → (i < capacity) × (holds q (t.slots i) ≡ true)
    unfolding find_from
    find_from_sound p zero i c h = cc
    find_from_sound p (suc left) i c h =
        let idx = probed b p in
        elim (Bool-cases (is_empty (t.slots idx).state)) [
          | inl e ↦ ground arith
          | inr n ↦ elim (Bool-cases (holds q (t.slots idx))) [
            | inl y ↦
                let same : idx ≡ i = ground arith in (rw (← same) (probed-lt b p c), rw (← same) y)
            | inr z ↦ find_from_sound (suc p) left i c (ground arith)
          ]
        ]

    -- A slot that the chain comes to is found, unless another holds the pid.
    find_from_complete :
        (p left i k : ℕ)
        → p ≤ k
        → k < p + left
        → probed b k ≡ i
        → ((j : ℕ) → j < k → is_empty (t.slots (probed b j)).state ≡ false)
        → holds q (t.slots i) ≡ true
        → (j : ℕ) × (find_from capacity t q b p left ≡ some j)
    unfolding find_from
    find_from_complete p zero i k l h e path y = absurd (omega arith)
    find_from_complete p (suc left) i k l h e path y =
        let idx = probed b p in
        elim (Bool-cases (holds q (t.slots idx))) [
          | inl here ↦ (idx, ground (arith, holds_lem q (t.slots idx) here))
          | inr not_here ↦ elim (Bool-cases (p == k)) [
            | inl e' ↦
                let same : p ≡ k = ground arith in
                let there : holds q (t.slots (probed b p)) ≡ true = rw (same, e) y in cc
            | inr n ↦
                let before : p < k = ground arith in
                let (j, found) =
                  find_from_complete (suc p) left i k before (omega arith) e path y in
                (j, ground (arith, path p before))
          ]
        ]

  -- Where a search ends.
  pub data Located (t : Table) (q : Pid) : Option ℕ → Type 0 where
    there : (i : ℕ) → i < capacity → holds q (t.slots i) ≡ true → Located t q (some i)
    missing : Missing t q → Located t q none

  -- A search in a valid table ends at the slot that holds the pid, or shows that none does.
  pub find_existing_slot-Located :
      (t : Table) (q : Pid)
      → 0 < capacity
      → IsValid t
      → Located t q (find_existing_slot capacity t q)
  unfolding find_existing_slot
  find_existing_slot-Located t q c v = elim (Bool-cases (positive q)) [
    | inr n ↦ rw n (Located.missing λ i l. unreal i l n)
    | inl y ↦
        let b = process_hash capacity q in
        elim (Option-cases (find_from capacity t q b 0 capacity)) [
          | inr (i, e) ↦
              let (l, h) = find_from_sound t q b 0 capacity i c e in rw (y, e) (Located.there i l h)
          | inl e ↦ rw (y, e) (Located.missing λ i l. unfound i l e)
        ]
  ]
    where
      unreal : (i : ℕ) → i < capacity → positive q ≡ false → holds q (t.slots i) ≡ false
      unreal i l n = elim (Bool-cases (holds q (t.slots i))) [
        | inr f ↦ f
        | inl h ↦ let (o, x, u, same) = holds_lem q (t.slots i) h in ground (arith, v.real i l o)
      ]

      unfound :
          (i : ℕ)
          → i < capacity
          → find_from capacity t q (process_hash capacity q) 0 capacity ≡ none
          → holds q (t.slots i) ≡ false
      unfound i l e = elim (Bool-cases (holds q (t.slots i))) [
        | inr f ↦ f
        | inl h ↦
            let chain = v.reached q i l h in
            let (j, found) =
              find_from_complete t q (process_hash capacity q) 0 capacity i chain.steps
                (omega arith) (omega (arith, chain.few)) chain.arrives chain.unbroken h in
            cc
      ]
