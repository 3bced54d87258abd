-- ===== src/ProcessTable/Refine.antt =====
-- The table against a map from pids to processes: what an upsert of process.c does to the map.
use cgroup_research.Prelude.{
  ℕ, ◌+◌, ◌<◌, ◌≡◌, refl, sym, ◌∙◌, inl, inr, Bool, true, false, Option, none, some, Pid, positive,
  eq_ℤ, eq_ℤ_iff, eq_ℤ_refl, arith, Bool-cases, leb, ◌==◌, if◌then◌else◌,
}
use mathlib.Core.Bool.{false≢true}
use cgroup_research.Prelude.Word.{word, inc}
use cgroup_research.ProcessTable.Table.{
  SlotState, ProcInfo, Slot, Table, Event, Answers, zero_info, is_occupied, holds, write_slot,
  write_info, exec_info, claim, prepare_upsert, write_exec, process_get, process_upsert_exec,
}
use cgroup_research.ProcessTable.Entries.{exec_asked, exec_info_lem}
use cgroup_research.ProcessTable.Search.{holds_lem, Chain, IsValid}
use cgroup_research.ProcessTable.Claims.{Claimed, find_upsert_slot-Claimed}
use cgroup_research.ProcessTable.Writes.{
  Written, Fits, number-lt, number-full, process_get_there, process_get-Missing, write-IsValid,
  get-Written_other,
}

-- The table as a map.
abbrev pub Processes : Type 0
Processes = Pid → Option ProcInfo

abbrev pub update : Pid → Option ProcInfo → Processes → Processes
update p x m q = if eq_ℤ p q then x else m q

-- What an upsert makes of the entry that was there, if any.
abbrev pub entry_of : (Bool → ProcInfo → ProcInfo) → Option ProcInfo → ProcInfo
entry_of f none = f false zero_info
entry_of f (some old) = f true old

pub ==_refl : (i : ℕ) → (i == i) ≡ true
==_refl i = ground arith

pub not_both : {b : Bool} → b ≡ false → b ≡ true → ⊥
not_both h k = false≢true (sym h ∙ k)

pub apart : {i j : ℕ} → i ≡ j → (i == j) ≡ false → ⊥
apart h e = ground arith

pub occupied_lem : (s : SlotState) → is_occupied s ≡ true → s ≡ SlotState.occupied
occupied_lem s h = ground arith

pub holds_other : (q r : Pid) (s : Slot) → s.info.pid ≡ q → eq_ℤ q r ≡ false → holds r s ≡ false
holds_other q r s e n = rw (e, n) (ground arith)

module _ (capacity : ℕ) (c : 0 < capacity) where
  -- What an upsert of a pid may do: it writes the entry of the pid and of no other, and returns it; or
  -- the table is full of other processes, and it returns NULL.
  pub data Upserted (t : Table) (q : Pid) (f : Bool → ProcInfo → ProcInfo)
      : Option (Table × ℕ) → Type 0 where
    done :
        (t' : Table) (i : ℕ)
        → i < capacity
        → IsValid capacity t'
        → ((r : Pid)
            → process_get capacity t' r
              ≡ update q (some (entry_of f (process_get capacity t q))) (process_get capacity t) r)
        → holds q (t'.slots i) ≡ true
        → (t'.slots i).info ≡ entry_of f (process_get capacity t q)
        → Upserted t q f (some (t', i))
    full : t.occupied_count ≡ capacity → process_get capacity t q ≡ none → Upserted t q f none

  -- A process placed in a slot of its chain.
  module _ (t : Table) (q : Pid) (i : ℕ) (p : ProcInfo) (t' : Table) (v : IsValid capacity t)
      (l : i < capacity) (w : Written t i (record { state = SlotState.occupied; info = p }) t')
      (same_pid : p.pid ≡ q) (used : p.used ≡ true) (real : positive q ≡ true)
      (chain : Chain capacity t q i)
      (only : (j : ℕ) → j < capacity → holds q (t.slots j) ≡ true → j ≡ i)
      (mine : (r : Pid) → eq_ℤ q r ≡ false → holds r (t.slots i) ≡ false)
      (counted : t'.occupied_count + (if is_occupied (t.slots i).state then 1 else 0)
        ≡ t.occupied_count + 1) where
    placed : Slot
    placed = record { state = SlotState.occupied; info = p }

    placed-pid :
        (r : Pid) → holds r (record { state = SlotState.occupied; info = p }) ≡ true → r ≡ q
    placed-pid r h =
        let (o, x, u, e) = holds_lem r (record { state = SlotState.occupied; info = p }) h in
        sym e ∙ same_pid

    placed-Fits : Fits capacity t i (record { state = SlotState.occupied; info = p })
    placed-Fits = record {
      used = λ o. used;
      real = λ o. rw same_pid real;
      clean = λ o. cc;
      visible = refl;
      only = λ r j k h h'. only j k (rw (← placed-pid r h) h');
      chain = λ r h. rw (placed-pid r h) chain;
    }

    pub place-IsValid : IsValid capacity t'
    place-IsValid =
        write-IsValid capacity t i (record { state = SlotState.occupied; info = p }) t' w
          placed-Fits v l counted

    pub place-holds : holds q (t'.slots i) ≡ true
    place-holds = rw w.here (ground (arith, same_pid, used, eq_ℤ_refl q))

    pub place-get :
        (r : Pid) → process_get capacity t' r ≡ update q (some p) (process_get capacity t) r
    place-get r = elim (Bool-cases (eq_ℤ q r)) [
      | inl e ↦
          let same : q ≡ r = (eq_ℤ_iff q r).0 e in
          let got = process_get_there capacity c t' q i place-IsValid l place-holds in
          rw (← same, eq_ℤ_refl q) (rw w.here at got)
      | inr n ↦ rw n (
          get-Written_other capacity t i (record { state = SlotState.occupied; info = p }) t' w
            placed-Fits r c v place-IsValid (mine r n)
            (holds_other q r (record { state = SlotState.occupied; info = p }) same_pid n))
    ]

    pub place-Upserted :
        (f : Bool → ProcInfo → ProcInfo)
        → p ≡ entry_of f (process_get capacity t q)
        → Upserted t q f (some (t', i))
    place-Upserted f e =
        Upserted.done t' i l place-IsValid (rw (← e) place-get) place-holds (rw w.here e)

  -- From the claimed slot on, as both upserts go.
  abbrev pub write_entry :
      (Bool → ProcInfo → ProcInfo) → Option (Table × ℕ × Bool) → Option (Table × ℕ)
  write_entry f none = none
  write_entry f (some (t, i, found)) = some (write_info i (f found (t.slots i).info) t, i)

  pub claim-Upserted :
      (t : Table) (q : Pid) (f : Bool → ProcInfo → ProcInfo) {r : Option (ℕ × Bool)}
      → capacity < word
      → IsValid capacity t
      → positive q ≡ true
      → ((b : Bool) (old : ProcInfo) → ((f b old).pid ≡ q) × ((f b old).used ≡ true))
      → Claimed capacity t q r
      → Upserted t q f (write_entry f (claim capacity t r))
  unfolding claim
  claim-Upserted t q f wide v y e (Claimed.found i l h) =
      let old = (t.slots i).info in
      let (o, x, u, same) = holds_lem q (t.slots i) h in
      let state_there : (t.slots i).state ≡ SlotState.occupied = occupied_lem (t.slots i).state o in
      place-Upserted t q i (f true old) (write_info i (f true old) t) v l
        (record { same = λ j n. rw n refl; here = rw (==_refl i, state_there) refl }) (e true old).0
        (e true old).1 y (v.reached q i l h) (λ j k g. v.once q j i k l g h)
        (λ r n. holds_other q r (t.slots i) same n) (rw o refl) f
        (rw (process_get_there capacity c t q i v l h) refl)
  claim-Upserted t q f wide v y e (Claimed.fresh i l o chain m) =
      let claimed = write_slot i (record { state = SlotState.occupied; info = zero_info }) t in
      let fresh_info = f false zero_info in
      let counted = record claimed { occupied_count = inc t.occupied_count } in
      let few = number-lt t i capacity l o in
      let room : leb capacity t.occupied_count ≡ false = ground (arith, v.counted) in
      let one_more : inc t.occupied_count ≡ t.occupied_count + 1 = omega (arith, v.counted) in
      let old_there : (counted.slots i).info ≡ zero_info = rw (==_refl i) refl in
      rw (room, old_there)
        (place-Upserted t q i fresh_info (write_info i fresh_info counted) v l
          (record { same = λ j n. rw n refl; here = rw (==_refl i) refl }) (e false zero_info).0
          (e false zero_info).1 y chain (λ j k g. absurd (not_both (m j k) g)) (λ r n. rw o refl)
          (rw o (omega (arith, one_more))) f (rw (process_get-Missing capacity c t q v m) refl))
  claim-Upserted t q f wide v y e (Claimed.full all m) =
      Upserted.full (v.counted ∙ number-full t capacity all)
        (process_get-Missing capacity c t q v m)

  prepared-Upserted :
      (t : Table) (q : Pid) (f : Bool → ProcInfo → ProcInfo)
      → capacity < word
      → IsValid capacity t
      → positive q ≡ true
      → ((b : Bool) (old : ProcInfo) → ((f b old).pid ≡ q) × ((f b old).used ≡ true))
      → Upserted t q f (write_entry f (prepare_upsert capacity t q))
  unfolding prepare_upsert
  prepared-Upserted t q f wide v y e =
      claim-Upserted t q f wide v y e (find_upsert_slot-Claimed capacity t q c v y)

  write_exec_lem :
      (answers : Answers) (e : Event) (r : Option (Table × ℕ × Bool))
      → write_exec capacity answers e r ≡ write_entry (exec_info answers e) r
  unfolding write_exec
  write_exec_lem answers e none = refl
  write_exec_lem answers e (some (t, i, found)) = refl

  -- An exec event on a valid table writes the entry of its pid and no other: used, with the pid, the
  -- parent, the user and the name of the event, of which 15 bytes are kept, with the path and the
  -- command line of /proc, and with the protection and the group that an earlier entry had. Only a
  -- table full of other processes refuses it.
  pub process_upsert_exec-Upserted :
      (answers : Answers) (t : Table) (e : Event)
      → capacity < word
      → IsValid capacity t
      → positive e.pid ≡ true
      → Upserted t e.pid (exec_asked answers e) (process_upsert_exec capacity answers t e)
  unfolding process_upsert_exec
  process_upsert_exec-Upserted answers t e wide v y =
      rw (y, write_exec_lem answers e (prepare_upsert capacity t e.pid), exec_info_lem answers e y)
        (prepared-Upserted t e.pid (exec_asked answers e) wide v y (λ b old. (refl, refl)))
