-- ===== src/ProcessTable/Writes.antt =====
-- What the writes of process.c to one slot do to a valid table.
use cgroup_research.Prelude.{
  ℕ, zero, suc, ◌+◌, ◌≤◌, ◌<◌, ◌≡◌, refl, sym, ◌∙◌, ◌⊎◌, inl, inr, Bool, true, false, Option, none,
  some, Pid, positive, arith, Bool-cases, ◌==◌, if◌then◌else◌,
}
use cgroup_research.ProcessTable.Table.{
  ProcInfo, Slot, Table, is_empty, is_occupied, holds, process_get, process_hash,
}
use cgroup_research.ProcessTable.Search.{
  number, probed, Chain, IsValid, Missing, Located, find_existing_slot-Located,
}

-- One slot was written, the others were not.
pub record Written (t : Table) (i : ℕ) (s : Slot) (t' : Table) : Type 0 where
  pub same : (j : ℕ) → (i == j) ≡ false → t'.slots j ≡ t.slots j
  pub here : t'.slots i ≡ s

pub number-le : (t : Table) (n : ℕ) → number t n ≤ n
number-le t zero = omega arith
number-le t (suc n) = ground (arith, number-le t n)

pub number-lt :
    (t : Table) (i n : ℕ) → i < n → is_occupied (t.slots i).state ≡ false → number t n < n
number-lt t i zero l o = absurd (omega arith)
number-lt t i (suc n) l o = elim (Bool-cases (i == n)) [
  | inl e ↦
      let same : i ≡ n = ground arith in
      let free : is_occupied (t.slots n).state ≡ false = rw (← same) o in
      ground (arith, number-le t n)
  | inr e ↦ ground (arith, number-lt t i n (ground arith) o)
]

pub number-full :
    (t : Table) (n : ℕ) → ((i : ℕ) → i < n → is_occupied (t.slots i).state ≡ true) → number t n ≡ n
number-full t zero h = refl
number-full t (suc n) h =
    ground (arith, h n (omega arith), number-full t n (λ i l. h i (omega arith)))

pub number-positive :
    (t : Table) (i n : ℕ) → i < n → is_occupied (t.slots i).state ≡ true → 0 < number t n
number-positive t i zero l o = absurd (omega arith)
number-positive t i (suc n) l o = elim (Bool-cases (i == n)) [
  | inl e ↦
      let same : i ≡ n = ground arith in
      let there : is_occupied (t.slots n).state ≡ true = rw (← same) o in ground arith
  | inr e ↦ ground (arith, number-positive t i n (ground arith) o)
]

abbrev one_if : Bool → ℕ
one_if b = if b then 1 else 0

number-above :
    (t : Table) (i n : ℕ) (s : Slot) (t' : Table)
    → Written t i s t'
    → n ≤ i
    → number t' n ≡ number t n
number-above t i zero s t' w l = refl
number-above t i (suc n) s t' w l =
    let e = w.same n (ground arith) in
    rw e (ground (arith, number-above t i n s t' w (omega arith)))

pub number-Written :
    (t : Table) (i n : ℕ) (s : Slot) (t' : Table)
    → Written t i s t'
    → i < n
    → number t' n + one_if (is_occupied (t.slots i).state)
      ≡ number t n + one_if (is_occupied s.state)
number-Written t i zero s t' w l = absurd (omega arith)
number-Written t i (suc n) s t' w l = elim (Bool-cases (i == n)) [
  | inl e ↦
      let same : i ≡ n = ground arith in
      let old : t.slots i ≡ t.slots n = rw same refl in
      let new : t'.slots n ≡ s = rw (← same) w.here in
      rw (old, new) (omega (arith, number-above t i n s t' w (omega arith)))
  | inr e ↦ rw (w.same n e) (omega (arith, number-Written t i n s t' w (ground arith)))
]

module _ (capacity : ℕ) (c : 0 < capacity) where
  -- What `process_get` gives, from the slots.
  pub process_get_there :
      (t : Table) (q : Pid) (i : ℕ)
      → IsValid capacity t
      → i < capacity
      → holds q (t.slots i) ≡ true
      → process_get capacity t q ≡ some (t.slots i).info
  unfolding process_get
  process_get_there t q i v l h = got (find_existing_slot-Located capacity t q c v)
    where
      got :
          {r : Option ℕ}
          → Located capacity t q r
          → (elim r [ none ↦ none | some idx ↦ some (t.slots idx).info ]) ≡ some (t.slots i).info
      got (Located.there j k y) = let same : j ≡ i = v.once q j i k l y h in rw same refl
      got (Located.missing m) = let gone = m i l in cc

  pub process_get-Missing :
      (t : Table) (q : Pid)
      → IsValid capacity t
      → Missing capacity t q
      → process_get capacity t q ≡ none
  unfolding process_get
  process_get-Missing t q v m = got (find_existing_slot-Located capacity t q c v)
    where
      got :
          {r : Option ℕ}
          → Located capacity t q r
          → ◌≡◌ {A = Option ProcInfo}
              (elim r [ none ↦ none | some idx ↦ some (t.slots idx).info ])
              none
      got (Located.there j k y) = let gone = m j k in cc
      got (Located.missing n) = refl

  -- Either a slot holds a pid, or none does.
  pub holds-cases :
      (t : Table) (q : Pid)
      → IsValid capacity t
      → ((i : ℕ) × (i < capacity) × (holds q (t.slots i) ≡ true)) ⊎ Missing capacity t q
  holds-cases t q v = from (find_existing_slot-Located capacity t q c v)
    where
      from :
          {r : Option ℕ}
          → Located capacity t q r
          → ((i : ℕ) × (i < capacity) × (holds q (t.slots i) ≡ true)) ⊎ Missing capacity t q
      from (Located.there j k y) = inl (j, k, y)
      from (Located.missing n) = inr n

pub slot-cases :
    (t : Table) (i : ℕ) (s : Slot) (t' : Table)
    → Written t i s t'
    → (j : ℕ) → ((i ≡ j) × (t'.slots j ≡ s)) ⊎ (((i == j) ≡ false) × (t'.slots j ≡ t.slots j))
slot-cases t i s t' w j = elim (Bool-cases (i == j)) [
  | inl e ↦ let same : i ≡ j = ground arith in inl (same, (rw (← same) w.here))
  | inr e ↦ inr (e, w.same j e)
]

-- What a slot must be for the table to stay valid when it is written.
pub record Fits (capacity : ℕ) (t : Table) (i : ℕ) (s : Slot) : Type 0 where
  pub used : is_occupied s.state ≡ true → s.info.used ≡ true
  pub real : is_occupied s.state ≡ true → positive s.info.pid ≡ true
  pub clean : is_occupied s.state ≡ false → s.info.used ≡ false
  pub visible : is_empty s.state ≡ false
  pub only :
      (q : Pid) (j : ℕ) → j < capacity → holds q s ≡ true → holds q (t.slots j) ≡ true → j ≡ i
  pub chain : (q : Pid) → holds q s ≡ true → Chain capacity t q i

module _ (capacity : ℕ) (t : Table) (i : ℕ) (s : Slot) (t' : Table) (w : Written t i s t')
    (f : Fits capacity t i s) where
  Chain-Written : (q : Pid) (j : ℕ) → Chain capacity t q j → Chain capacity t' q j
  Chain-Written q j h = record {
    steps = h.steps;
    few = h.few;
    arrives = h.arrives;
    unbroken = λ k l. elim (slot-cases t i s t' w (probed capacity (process_hash capacity q) k)) [
      | inl (e, x) ↦ rw x f.visible
      | inr (e, x) ↦ rw x (h.unbroken k l)
    ];
  }

  once-Written :
      (q : Pid) (j k : ℕ)
      → IsValid capacity t
      → j < capacity
      → k < capacity
      → holds q (t'.slots j) ≡ true
      → holds q (t'.slots k) ≡ true
      → j ≡ k
  once-Written q j k v lj lk hj hk = elim (slot-cases t i s t' w j) [
    | inl (e, x) ↦
        let mine : holds q s ≡ true = rw (← x) hj in
        elim (slot-cases t i s t' w k) [
          | inl (e', x') ↦ sym e ∙ e'
          | inr (e', x') ↦
              let other : holds q (t.slots k) ≡ true = rw (← x') hk in
              sym e ∙ sym (f.only q k lk mine other)
        ]
    | inr (e, x) ↦
        let other : holds q (t.slots j) ≡ true = rw (← x) hj in
        elim (slot-cases t i s t' w k) [
          | inl (e', x') ↦
              let mine : holds q s ≡ true = rw (← x') hk in f.only q j lj mine other ∙ e'
          | inr (e', x') ↦
              let other' : holds q (t.slots k) ≡ true = rw (← x') hk in
              v.once q j k lj lk other other'
        ]
  ]

  pub write-IsValid :
      IsValid capacity t
      → i < capacity
      → t'.occupied_count + one_if (is_occupied (t.slots i).state)
        ≡ t.occupied_count + one_if (is_occupied s.state)
      → IsValid capacity t'
  write-IsValid v l n = record {
    used = λ j k o. elim (slot-cases t i s t' w j) [
      | inl (e, x) ↦ let o' = rw x at o in rw x (f.used o')
      | inr (e, x) ↦ let o' = rw x at o in rw x (v.used j k o')
    ];
    real = λ j k o. elim (slot-cases t i s t' w j) [
      | inl (e, x) ↦ let o' = rw x at o in rw x (f.real o')
      | inr (e, x) ↦ let o' = rw x at o in rw x (v.real j k o')
    ];
    clean = λ j k o. elim (slot-cases t i s t' w j) [
      | inl (e, x) ↦ let o' = rw x at o in rw x (f.clean o')
      | inr (e, x) ↦ let o' = rw x at o in rw x (v.clean j k o')
    ];
    once = λ q j k lj lk hj hk. once-Written q j k v lj lk hj hk;
    reached = λ q j k h. elim (slot-cases t i s t' w j) [
      | inl (e, x) ↦
          let mine : holds q s ≡ true = rw (← x) h in rw (← e) (Chain-Written q i (f.chain q mine))
      | inr (e, x) ↦
          let other : holds q (t.slots j) ≡ true = rw (← x) h in
          Chain-Written q j (v.reached q j k other)
    ];
    counted = omega (arith, number-Written t i capacity s t' w l, v.counted);
  }

  -- The processes that the written slot does not concern are found as before.
  pub get-Written_other :
      (q : Pid)
      → 0 < capacity
      → IsValid capacity t
      → IsValid capacity t'
      → holds q (t.slots i) ≡ false
      → holds q s ≡ false
      → process_get capacity t' q ≡ process_get capacity t q
  get-Written_other q c v v' old new = elim (holds-cases capacity c t q v) [
    | inl (j, l, h) ↦ elim (slot-cases t i s t' w j) [
      | inl (e, x) ↦ let wrong : holds q (t.slots i) ≡ true = rw e h in cc
      | inr (e, x) ↦
          rw
            (
              process_get_there capacity c t q j v l h,
              process_get_there capacity c t' q j v' l (rw x h),
              x,
            )
            refl
    ]
    | inr missing ↦
        process_get-Missing capacity c t' q v' (λ j l. absent j l missing)
        ∙ sym (process_get-Missing capacity c t q v missing)
  ]
    where
      absent : (j : ℕ) → j < capacity → Missing capacity t q → holds q (t'.slots j) ≡ false
      absent j l m = elim (slot-cases t i s t' w j) [
        | inl (e, x) ↦ rw x new
        | inr (e, x) ↦ rw x (m j l)
      ]
