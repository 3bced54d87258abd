-- ===== src/Controller/Loops.antt =====
-- A rule for each loop of the controller: what the body keeps, the loop keeps.
use cgroup_research.Prelude.{
  ℕ, ◌≡◌, refl, ◌∙◌, ◌<◌, true, none, some, List, [], ◌∷◌, ◌++◌, Pid, eq_ℤ_iff, length, arith, inl,
  inr, Option-cases,
}
use cgroup_research.Prelude.Double.{Double}
use cgroup_research.Cgroup.Interface.{Cgroups}
use cgroup_research.Controller.Types.{Candidate, Config, Record}
use cgroup_research.Controller.Candidates.{find_record, set_record}
use cgroup_research.Controller.Record.{Effects, see_candidate}
use cgroup_research.Controller.Apply.{
  new_record, create_record, find_or_create, see_all, for_records,
}
use cgroup_research.Controller.Transitions.{see_candidate-pid}
use cgroup_research.Controller.Lookup.{find_record-pid}
use cgroup_research.Controller.Pairs.{Pairwise}
use cgroup_research.Controller.Room.{Room, Room-old, Room-new}

module _ {W : Type 0} where
  -- A write to the record behind all others replaces it.
  set_record-append :
      (rs : List (Record W)) (pid : Pid) (r v : Record W)
      → find_record rs pid ≡ none
      → r.pid ≡ pid
      → set_record (rs ++ (r ∷ [])) pid v ≡ rs ++ (v ∷ [])
  unfolding find_record set_record
  set_record-append [] pid r v n h = ground (arith, eq_ℤ_iff r.pid pid)
  set_record-append (x ∷ rs) pid r v n h = ground (arith, set_record-append rs pid r v)

pub new_record-pid :
    (W : Type 0) ⦃d : Double W⦄ (pid : Pid) (now : ℕ) → (new_record {W = W} pid now).pid ≡ pid
unfolding new_record
new_record-pid W pid now = refl

module _ {W : Type 0} ⦃d : Double W⦄ where
  find_or_create-some :
      (limit now : ℕ) (rs : List (Record W)) (pid : Pid) (r : Record W)
      → find_record rs pid ≡ some r
      → find_or_create limit rs pid now ≡ some (rs, r)
  unfolding find_or_create
  find_or_create-some limit now rs pid r h = rw (h, find_or_create)

  find_or_create-none :
      (limit now : ℕ) (rs : List (Record W)) (pid : Pid)
      → find_record rs pid ≡ none
      → length rs < limit
      → find_or_create limit rs pid now ≡ some (rs ++ (new_record pid now ∷ []), new_record pid now)
  unfolding find_or_create create_record
  find_or_create-none limit now rs pid h l = rw (h, find_or_create) (ground arith)

module _ {W World : Type 0} ⦃d : Double W⦄ (cgroups : Cgroups World) (cfg : Config W)
    (limit now : ℕ) where
  -- One round of the loop, at the record found or made.
  see_all-cons :
      (c : Candidate W) (cs : List (Candidate W)) (rs rs' : List (Record W)) (r : Record W)
      (e : Effects W World)
      → find_or_create limit rs c.pid now ≡ some (rs', r)
      → see_all cgroups cfg limit now rs (c ∷ cs) e ≡ (
          let (r', e') = see_candidate cgroups cfg now c r e in
          see_all cgroups cfg limit now (set_record rs' c.pid r') cs e')
  unfolding see_all
  see_all-cons c cs rs rs' r e h = rw (h, see_all)

module _ {W World : Type 0} ⦃d : Double W⦄ (cgroups : Cgroups World) (cfg : Config W)
    (limit now : ℕ) (P : List (Candidate W) → List (Record W) → Effects W World → Type 0)
    (on_old : (c : Candidate W) (cs : List (Candidate W)) (rs : List (Record W)) (r : Record W)
        (e : Effects W World)
      → find_record rs c.pid ≡ some r
      → P (c ∷ cs) rs e
      → let (r', e') = see_candidate cgroups cfg now c r e in P cs (set_record rs c.pid r') e')
    (on_new : (c : Candidate W) (cs : List (Candidate W)) (rs : List (Record W))
        (e : Effects W World)
      → find_record rs c.pid ≡ none
      → P (c ∷ cs) rs e
      → let (r', e') = see_candidate cgroups cfg now c (new_record c.pid now) e in
        P cs (rs ++ (r' ∷ [])) e') where
  -- Where the array has room, the loop over the candidates ends without the early return, and keeps
  -- what its body keeps, at a record that was there and at a new one.
  pub see_all_rule :
      (cs : List (Candidate W)) (rs : List (Record W)) (e : Effects W World)
      → Room limit rs cs
      → P cs rs e
      → let (room, rs', e') = see_all cgroups cfg limit now rs cs e in
        (room ≡ true) × Room limit rs' [] × P [] rs' e'
  unfolding see_all
  see_all_rule [] rs e m h = (refl, m, h)
  see_all_rule (c ∷ cs) rs e m h = elim (Option-cases (find_record rs c.pid)) [
    | inr (r, f) ↦
        let (r', e') = see_candidate cgroups cfg now c r e in
        let same : r'.pid ≡ c.pid =
          (see_candidate-pid cgroups cfg now c r e).0 ∙ find_record-pid rs c.pid r f in
        let round = find_or_create-some limit now rs c.pid r f in
        rw (see_all-cons cgroups cfg limit now c cs rs rs r e round) (
          see_all_rule cs (set_record rs c.pid r') e' (Room-old limit rs c cs r' same m)
            (on_old c cs rs r e f h))
    | inl f ↦
        let fresh = new_record c.pid now in
        let (r', e') = see_candidate cgroups cfg now c fresh e in
        let same : r'.pid ≡ c.pid =
          (see_candidate-pid cgroups cfg now c fresh e).0 ∙ new_record-pid W c.pid now in
        let (space, room) = Room-new limit rs c cs r' same f m in
        let round = find_or_create-none limit now rs c.pid f space in
        rw
          (
            see_all-cons cgroups cfg limit now c cs rs (rs ++ (fresh ∷ [])) fresh e round,
            set_record-append rs c.pid fresh r' f (new_record-pid W c.pid now),
          )
          (see_all_rule cs (rs ++ (r' ∷ [])) e' room (on_new c cs rs e f h))
  ]

module _ {W World : Type 0} where
  -- A loop over the records relates each to what becomes of it.
  pub for_records-Pairwise :
      (body : Record W → Effects W World → Record W × Effects W World)
      (Rel : Record W → Record W → Type 0)
      → ((r : Record W) (e : Effects W World) → Rel r (body r e).0)
      → (rs : List (Record W)) (e : Effects W World) → Pairwise Rel rs (for_records body rs e).0
  unfolding for_records
  for_records-Pairwise body Rel h [] e = tt
  for_records-Pairwise body Rel h (r ∷ rs) e =
      (h r e, for_records-Pairwise body Rel h rs (body r e).1)
