-- ===== src/Controller/Pairs.antt =====
-- Two arrays whose records correspond in pairs: what a pass over the array that keeps the pids keeps.
use cgroup_research.Prelude.{
  ℕ, ◌≡◌, refl, sym, ap, false, List, [], ◌∷◌, Pid, eq_ℤ, All, length, arith,
}
use mathlib.Core.Path.{subst}
use cgroup_research.Controller.Types.{Record, Candidate}
use cgroup_research.Controller.Candidates.{find_record, is_none}
use cgroup_research.Controller.Lookup.{Absent, Distinct}
use cgroup_research.Controller.Room.{missing, Room}
use cgroup_research.Controller.Apply.{clear_seen}

-- Two arrays of the same length, with records related in pairs.
abbrev pub Pairwise : {A : Type 0} → (A → A → Type 0) → List A → List A → Type 0
Pairwise Rel [] [] = Unit
Pairwise Rel [] (y ∷ ys) = ⊥
Pairwise Rel (x ∷ xs) [] = ⊥
Pairwise Rel (x ∷ xs) (y ∷ ys) = Rel x y × Pairwise Rel xs ys

module _ {W : Type 0} (Rel : Record W → Record W → Type 0) where
  pub Pairwise-All :
      (P Q : Record W → Type 0)
      → ((a b : Record W) → Rel a b → P a → Q b)
      → (rs rs' : List (Record W)) → Pairwise Rel rs rs'
      → All P rs
      → All Q rs'
  Pairwise-All P Q h [] [] p a = tt
  Pairwise-All P Q h [] (y ∷ ys) p a = absurd p
  Pairwise-All P Q h (x ∷ xs) [] p a = absurd p
  Pairwise-All P Q h (x ∷ xs) (y ∷ ys) p a = (h x y p.0 a.0, Pairwise-All P Q h xs ys p.1 a.1)

  pub clear_seen-Pairwise :
      ((r : Record W) → Rel r (record r { seen_in_last_apply = false }))
      → (rs : List (Record W)) → Pairwise Rel rs (clear_seen rs)
  unfolding clear_seen
  clear_seen-Pairwise h [] = tt
  clear_seen-Pairwise h (r ∷ rs) = (h r, clear_seen-Pairwise h rs)

module _ {W : Type 0} (Rel : Record W → Record W → Type 0)
    (rel_pid : (a b : Record W) → Rel a b → b.pid ≡ a.pid) where
  pub length-Pairwise : (rs rs' : List (Record W)) → Pairwise Rel rs rs' → length rs' ≡ length rs
  length-Pairwise [] [] p = refl
  length-Pairwise [] (y ∷ ys) p = absurd p
  length-Pairwise (x ∷ xs) [] p = absurd p
  length-Pairwise (x ∷ xs) (y ∷ ys) p = ap ℕ.suc (length-Pairwise xs ys p.1)

  Absent-Pairwise :
      (pid : Pid) (rs rs' : List (Record W)) → Pairwise Rel rs rs' → Absent pid rs → Absent pid rs'
  Absent-Pairwise pid =
      Pairwise-All Rel (λ r. eq_ℤ r.pid pid ≡ false) (λ r. eq_ℤ r.pid pid ≡ false)
        λ a b h n. rw (rel_pid a b h) n

  pub Distinct-Pairwise :
      (rs rs' : List (Record W)) → Pairwise Rel rs rs' → Distinct rs → Distinct rs'
  Distinct-Pairwise [] [] p k = tt
  Distinct-Pairwise [] (y ∷ ys) p k = absurd p
  Distinct-Pairwise (x ∷ xs) [] p k = absurd p
  Distinct-Pairwise (x ∷ xs) (y ∷ ys) p k = (
    Absent-Pairwise y.pid xs ys p.1 (subst (λ q. Absent q xs) (sym (rel_pid x y p.0)) k.0),
    Distinct-Pairwise xs ys p.1 k.1,
  )

  is_none-Pairwise :
      (q : Pid) (rs rs' : List (Record W))
      → Pairwise Rel rs rs'
      → is_none (find_record rs' q) ≡ is_none (find_record rs q)
  unfolding find_record
  is_none-Pairwise q [] [] p = refl
  is_none-Pairwise q [] (y ∷ ys) p = absurd p
  is_none-Pairwise q (x ∷ xs) [] p = absurd p
  is_none-Pairwise q (x ∷ xs) (y ∷ ys) p =
      rw (rel_pid x y p.0) (ground (arith, is_none-Pairwise q xs ys p.1))

  missing-Pairwise :
      (rs rs' : List (Record W)) (cs : List (Candidate W))
      → Pairwise Rel rs rs'
      → missing rs' cs ≡ missing rs cs
  missing-Pairwise rs rs' [] p = refl
  missing-Pairwise rs rs' (c ∷ cs) p =
      rw (is_none-Pairwise c.pid rs rs' p, missing-Pairwise rs rs' cs p)

  pub Room-Pairwise :
      (limit : ℕ) (rs rs' : List (Record W)) (cs : List (Candidate W))
      → Pairwise Rel rs rs'
      → Room limit rs cs
      → Room limit rs' cs
  Room-Pairwise limit rs rs' cs p m = record {
    space = rw (missing-Pairwise rs rs' cs p, length-Pairwise rs rs' p) m.space;
    apart = m.apart;
  }
