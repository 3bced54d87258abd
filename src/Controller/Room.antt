-- ===== src/Controller/Room.antt =====
-- The checks of `prevalidate_candidates`: what a list that passes them is known to fulfil, and that
-- the array then has room for the records that the loop makes.
use cgroup_research.Prelude.{
  ℕ, ◌+◌, ◌≤◌, ◌<◌, ◌≡◌, refl, sym, true, false, none, some, List, [], ◌∷◌, ◌++◌, eq_ℤ, eq_ℤ_iff,
  eq_ℤ_sym, All, length, length-append, arith, if◌then◌else◌, Pid, Bool-cases, Option-cases, inl,
  inr,
}
use mathlib.Core.Path.{subst}
use cgroup_research.Prelude.Word.{word, inc}
use cgroup_research.Prelude.Double.{Double}
use cgroup_research.Controller.Types.{Rc, Candidate, Record, Controller}
use cgroup_research.Controller.Candidates.{
  Span, span_items, find_record, set_record, is_none, pid_among, candidate_valid, count_new,
  prevalidate_candidates,
}
use cgroup_research.Controller.Lookup.{find_record-append, length-set_record}

module _ {W : Type 0} where
  -- The candidates whose pid has no record yet.
  abbrev pub missing : List (Record W) → List (Candidate W) → ℕ
  missing rs [] = 0
  missing rs (c ∷ cs) = (if is_none (find_record rs c.pid) then 1 else 0) + missing rs cs

  -- No two candidates have the same pid.
  abbrev pub PidsDistinct : List (Candidate W) → Type 0
  PidsDistinct [] = Unit
  PidsDistinct (c ∷ cs) = All (λ x. eq_ℤ x.pid c.pid ≡ false) cs × PidsDistinct cs

  -- The array of `limit` records can hold what the remaining candidates need.
  pub record Room (limit : ℕ) (rs : List (Record W)) (cs : List (Candidate W)) : Type 0 where
    pub space : missing rs cs + length rs ≤ limit
    pub apart : PidsDistinct cs

  missing-length : (rs : List (Record W)) (cs : List (Candidate W)) → missing rs cs ≤ length cs
  missing-length rs [] = omega arith
  missing-length rs (c ∷ cs) = ground (arith, missing-length rs cs)

  is_none-set_record :
      (rs : List (Record W)) (pid q : Pid) (v : Record W)
      → v.pid ≡ pid
      → is_none (find_record (set_record rs pid v) q) ≡ is_none (find_record rs q)
  unfolding find_record set_record
  is_none-set_record [] pid q v h = refl
  is_none-set_record (x ∷ rs) pid q v h =
      ground (arith, eq_ℤ_iff x.pid pid, is_none-set_record rs pid q v h)

  missing-set_record :
      (rs : List (Record W)) (pid : Pid) (v : Record W) (cs : List (Candidate W))
      → v.pid ≡ pid
      → missing (set_record rs pid v) cs ≡ missing rs cs
  missing-set_record rs pid v [] h = refl
  missing-set_record rs pid v (c ∷ cs) h =
      rw (is_none-set_record rs pid c.pid v h, missing-set_record rs pid v cs h)

  missing-append :
      (rs : List (Record W)) (v : Record W) (cs : List (Candidate W))
      → All (λ x. eq_ℤ x.pid v.pid ≡ false) cs
      → missing (rs ++ (v ∷ [])) cs ≡ missing rs cs
  unfolding find_record
  missing-append rs v [] a = refl
  missing-append rs v (c ∷ cs) a =
      ground
        (arith, find_record-append rs v c.pid, eq_ℤ_sym c.pid v.pid a.0, missing-append rs v cs a.1)

  -- A candidate with a record leaves the room as it is.
  pub Room-old :
      (limit : ℕ) (rs : List (Record W)) (c : Candidate W) (cs : List (Candidate W)) (v : Record W)
      → v.pid ≡ c.pid
      → Room limit rs (c ∷ cs)
      → Room limit (set_record rs c.pid v) cs
  Room-old limit rs c cs v h m = record {
    space = omega (arith, m, missing-set_record rs c.pid v cs h, length-set_record rs c.pid v);
    apart = m.apart.1;
  }

  -- A candidate without a record finds room for one, and leaves enough for the others.
  pub Room-new :
      (limit : ℕ) (rs : List (Record W)) (c : Candidate W) (cs : List (Candidate W)) (v : Record W)
      → v.pid ≡ c.pid
      → find_record rs c.pid ≡ none
      → Room limit rs (c ∷ cs)
      → (length rs < limit) × Room limit (rs ++ (v ∷ [])) cs
  Room-new limit rs c cs v h n m =
      let others =
        subst (λ p. All (λ (x : Candidate W). eq_ℤ x.pid p ≡ false) cs) (sym h) m.apart.0 in
      let few : 1 + missing rs cs + length rs ≤ limit = rw n at m.space in
      (
        omega arith,
        record {
          space = omega (arith, missing-append rs v cs others, length-append rs (v ∷ []));
          apart = m.apart.1;
        },
      )

  pid_among-cons :
      (c : Candidate W) (earlier cs : List (Candidate W))
      → All (λ x. pid_among x.pid (c ∷ earlier) ≡ false) cs
      → All (λ x. eq_ℤ x.pid c.pid ≡ false) cs × All (λ x. pid_among x.pid earlier ≡ false) cs
  unfolding pid_among
  pid_among-cons c earlier [] h = (tt, tt)
  pid_among-cons c earlier (x ∷ cs) h = ground (arith, pid_among-cons c earlier cs h.1)

module _ {W : Type 0} ⦃d : Double W⦄ where
  -- What `count_new` checks of the candidates.
  count_new_checks :
      (rs : List (Record W)) (earlier : List (Candidate W)) (acc : ℕ) (cs : List (Candidate W))
      (k : ℕ)
      → acc + length cs < word
      → count_new rs earlier acc cs ≡ some k
      → (k ≡ acc + missing rs cs)
        × All (λ c. candidate_valid c ≡ true) cs
        × All (λ c. pid_among c.pid earlier ≡ false) cs
        × PidsDistinct cs
  unfolding count_new
  count_new_checks rs earlier acc [] k b h = (ground arith, tt, tt, tt)
  count_new_checks rs earlier acc (c ∷ cs) k b h =
      let acc' = if is_none (find_record rs c.pid) then inc acc else acc in
      elim (Bool-cases (candidate_valid c)) [
        | inr e ↦ ground arith
        | inl e ↦ elim (Bool-cases (pid_among c.pid earlier)) [
          | inl a ↦ ground arith
          | inr a ↦
              let later : count_new rs (c ∷ earlier) acc' cs ≡ some k = ground arith in
              let (total, valid, among, apart) =
                count_new_checks rs (c ∷ earlier) acc' cs k (ground arith) later in
              let (others, rest) = pid_among-cons c earlier cs among in
              (ground arith, (e, valid), (a, rest), (others, apart))
        ]
      ]

  -- What a list that passes the checks is known to fulfil.
  pub record Checked (ctl : Controller W) (cs : List (Candidate W)) : Type 0 where
    pub room : Room ctl.record_cap ctl.records cs
    pub valid : All (λ c. candidate_valid c ≡ true) cs

  -- A list that passes the checks has valid candidates with distinct pids, and the array has room
  -- for those of them that have no record.
  pub prevalidate_candidates-Checked :
      (ctl : Controller W) (candidates : Span (Candidate W))
      → length ctl.records ≤ ctl.record_cap
      → ctl.record_cap < word
      → length (span_items candidates) < word
      → prevalidate_candidates ctl candidates ≡ Rc.ok
      → Checked ctl (span_items candidates)
  unfolding prevalidate_candidates
  prevalidate_candidates-Checked ctl (Span.null n) f b l h = record {
    room = record { space = omega arith; apart = tt };
    valid = tt;
  }
  prevalidate_candidates-Checked ctl (Span.items cs) f b l h =
      elim (Option-cases (count_new ctl.records [] 0 cs)) [
        | inl e ↦ ground arith
        | inr (k, e) ↦
            let (total, valid, among, apart) =
              count_new_checks ctl.records [] 0 cs k (omega arith) e in
            record { room = record { space = ground arith; apart = apart }; valid = valid }
      ]
