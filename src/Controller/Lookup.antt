-- ===== src/Controller/Lookup.antt =====
-- Facts about the record array: the search for a pid, and a write at the record found.
use cgroup_research.Prelude.{
  ◌≡◌, or_else, refl, sym, ◌∙◌, inl, inr, false, some, none, List, [], ◌∷◌, ◌++◌, Pid, eq_ℤ,
  eq_ℤ_iff, eq_ℤ_sym, All, All-append, length, arith, Bool-cases,
}
use mathlib.Core.Path.{subst}
use cgroup_research.Controller.Types.{Record}
use cgroup_research.Controller.Candidates.{find_record, set_record}

module _ {W : Type 0} where
  -- No record of a list has this pid.
  abbrev pub Absent : Pid → List (Record W) → Type 0
  Absent pid = All (λ r. eq_ℤ r.pid pid ≡ false)

  abbrev pub Distinct : List (Record W) → Type 0
  Distinct [] = Unit
  Distinct (r ∷ rs) = Absent r.pid rs × Distinct rs

  pub All-Absent :
      (P Q : Record W → Type 0) (rs : List (Record W)) (pid : Pid)
      → ((r : Record W) → eq_ℤ r.pid pid ≡ false → P r → Q r)
      → Absent pid rs
      → All P rs
      → All Q rs
  All-Absent P Q [] pid keep n a = tt
  All-Absent P Q (x ∷ rs) pid keep n a = (keep x n.0 a.0, All-Absent P Q rs pid keep n.1 a.1)

  pub find_record-pid :
      (rs : List (Record W)) (pid : Pid) (r : Record W) → find_record rs pid ≡ some r → r.pid ≡ pid
  unfolding find_record
  find_record-pid [] pid r h = cc
  find_record-pid (x ∷ rs) pid r h = ground (arith, eq_ℤ_iff x.pid pid, find_record-pid rs pid r)

  -- What holds of every record holds of the one that is found.
  pub All-find_record :
      (P : Record W → Type 0) (rs : List (Record W)) (pid : Pid) (r : Record W)
      → All P rs
      → find_record rs pid ≡ some r
      → P r
  unfolding find_record
  All-find_record P [] pid r a h = cc
  All-find_record P (x ∷ rs) pid r a h = elim (Bool-cases (eq_ℤ x.pid pid)) [
    | inl e ↦ let same : x ≡ r = ground arith in subst P same a.0
    | inr e ↦ All-find_record P rs pid r a.1 (rw e at h)
  ]

  pub length-set_record :
      (rs : List (Record W)) (pid : Pid) (v : Record W) → length (set_record rs pid v) ≡ length rs
  unfolding set_record
  length-set_record [] pid v = refl
  length-set_record (x ∷ rs) pid v = ground (arith, length-set_record rs pid v)

  -- A write that keeps the pid keeps every other search.
  pub find_record-set_record_ne :
      (rs : List (Record W)) (pid q : Pid) (v : Record W)
      → v.pid ≡ pid
      → eq_ℤ pid q ≡ false
      → find_record (set_record rs pid v) q ≡ find_record rs q
  unfolding find_record set_record
  find_record-set_record_ne [] pid q v h n = refl
  find_record-set_record_ne (x ∷ rs) pid q v h n =
      ground (arith, eq_ℤ_iff x.pid pid, find_record-set_record_ne rs pid q v h n)

  pub find_record-set_record_self :
      (rs : List (Record W)) (pid : Pid) (r v : Record W)
      → v.pid ≡ pid
      → find_record rs pid ≡ some r
      → find_record (set_record rs pid v) pid ≡ some v
  unfolding find_record set_record
  find_record-set_record_self [] pid r v h f = cc
  find_record-set_record_self (x ∷ rs) pid r v h f =
      ground (arith, eq_ℤ_iff v.pid pid, find_record-set_record_self rs pid r v h)

  -- A record behind the others is found where none of them has its pid.
  pub find_record-append :
      (rs : List (Record W)) (v : Record W) (q : Pid)
      → find_record (rs ++ (v ∷ [])) q ≡ or_else (find_record rs q) (find_record (v ∷ []) q)
  unfolding find_record
  find_record-append [] v q = refl
  find_record-append (x ∷ rs) v q = ground (arith, find_record-append rs v q)

  pub Absent-find_record :
      (rs : List (Record W)) (pid : Pid) → find_record rs pid ≡ none → Absent pid rs
  unfolding find_record
  Absent-find_record [] pid h = tt
  Absent-find_record (x ∷ rs) pid h = ground (arith, Absent-find_record rs pid)

  -- A property that a write may change, of the records that a write leaves alone and of the one
  -- written.
  pub All-set_record :
      (P Q : Record W → Type 0) (rs : List (Record W)) (pid : Pid) (v : Record W)
      → Distinct rs
      → ((r : Record W) → eq_ℤ r.pid pid ≡ false → P r → Q r)
      → Q v
      → All P rs
      → All Q (set_record rs pid v)
  unfolding set_record
  All-set_record P Q [] pid v k keep new a = tt
  All-set_record P Q (x ∷ rs) pid v k keep new a = elim (Bool-cases (eq_ℤ x.pid pid)) [
    | inl e ↦ rw e (new, All-Absent P Q rs pid keep (rw ((eq_ℤ_iff x.pid pid).0 e) at k.0) a.1)
    | inr e ↦ rw e (keep x e a.0, All-set_record P Q rs pid v k.1 keep new a.1)
  ]

  Absent-set_record :
      (rs : List (Record W)) (pid q : Pid) (v : Record W)
      → v.pid ≡ pid
      → Absent q rs
      → Absent q (set_record rs pid v)
  unfolding set_record
  Absent-set_record [] pid q v h a = tt
  Absent-set_record (x ∷ rs) pid q v h a =
      ground (arith, eq_ℤ_iff x.pid pid, Absent-set_record rs pid q v h)

  -- Writes keep the pids apart, and so does a record for a pid that had none.
  pub Distinct-set_record :
      (rs : List (Record W)) (pid : Pid) (v : Record W)
      → v.pid ≡ pid
      → Distinct rs
      → Distinct (set_record rs pid v)
  unfolding set_record
  Distinct-set_record [] pid v h k = tt
  Distinct-set_record (x ∷ rs) pid v h k = elim (Bool-cases (eq_ℤ x.pid pid)) [
    | inl e ↦ rw e (subst (λ q. Absent q rs) (sym (h ∙ sym ((eq_ℤ_iff x.pid pid).0 e))) k.0, k.1)
    | inr e ↦ rw e (Absent-set_record rs pid x.pid v h k.0, Distinct-set_record rs pid v h k.1)
  ]

  pub Distinct-append :
      (rs : List (Record W)) (v : Record W)
      → Distinct rs
      → Absent v.pid rs
      → Distinct (rs ++ (v ∷ []))
  Distinct-append [] v k a = (tt, tt)
  Distinct-append (x ∷ rs) v k a = (
    All-append (λ r. eq_ℤ r.pid x.pid ≡ false) rs (v ∷ []) k.0 (eq_ℤ_sym x.pid v.pid a.0, tt),
    Distinct-append rs v k.1 a.1,
  )
