-- ===== src/Activity/Selection.antt =====
-- What the prefilter selects: the best of the eligible observations.
use mathlib.Core.Logic.{∥∥₁_elim}
use native.Mathlib.Nat.{ℕ_set}
use mathlib.Core.List.{Perm, Permᴰ}
use mathlib.Core.List.Perm
use cgroup_research.Prelude.{
  ℕ, zero, suc, ◌≤◌, ◌<◌, ◌≡◌, refl, sym, ap, ◌∙◌, ◌⊎◌, inl, inr, Bool, true, false, ◌&&◌, List, [],
  ◌∷◌, ◌++◌, All, ltb, ◌==◌, if◌then◌else◌, length, take, map, arith, Bool-cases, min,
}
use cgroup_research.Prelude.Double.{Double}
use cgroup_research.Activity.Prefilter.{
  PrefilterRc, PrefilterConfig, PrefilterStats, Observation, Screened, prefilter_stats_reset,
  has_small_rss, observation_is_valid, has_cheap_activity_signal, is_eligible, screened, in_order,
  collect, select, select_topk,
}

-- How many candidates are asked for, of a number of eligible ones; 0 is no limit.
abbrev pub wanted : PrefilterConfig → ℕ → ℕ
wanted cfg n = if cfg.max_candidates == 0 then n else min cfg.max_candidates n

module _ {W : Type 0} where
  -- The eligible observations, in their order.
  unfoldable pub eligible_of : PrefilterConfig → List (Observation W) → List (Observation W)
  eligible_of cfg [] = []
  eligible_of cfg (obs ∷ rest) =
      let others = eligible_of cfg rest in if is_eligible cfg obs then obs ∷ others else others

  abbrev pub drop : ℕ → List (Screened W) → List (Screened W)
  drop zero xs = xs
  drop (suc n) [] = []
  drop (suc n) (x ∷ xs) = drop n xs

  take-drop : (n : ℕ) (xs : List (Screened W)) → take n xs ++ drop n xs ≡ xs
  take-drop zero xs = refl
  take-drop (suc n) [] = refl
  take-drop (suc n) (x ∷ xs) = ap (λ ys. x ∷ ys) (take-drop n xs)

  length-take : (n : ℕ) (xs : List (Screened W)) → length (take n xs) ≡ min n (length xs)
  length-take zero xs = omega arith
  length-take (suc n) [] = omega arith
  length-take (suc n) (x ∷ xs) = omega (arith, length-take n xs)

module _ {W : Type 0} ⦃d : Double W⦄ where
  -- No element ranks before an earlier one.
  abbrev pub IsOrdered : List (Screened W) → Type 0
  IsOrdered [] = Unit
  IsOrdered (x ∷ xs) = All (λ y. in_order x y ≡ true) xs × IsOrdered xs

  All-drop :
      (x : Screened W) (n : ℕ) (xs : List (Screened W))
      → All (λ y. in_order x y ≡ true) xs
      → All (λ y. in_order x y ≡ true) (drop n xs)
  All-drop x zero xs h = h
  All-drop x (suc n) [] h = h
  All-drop x (suc n) (y ∷ xs) h = All-drop x n xs h.1

  best_first :
      (n : ℕ) (xs : List (Screened W))
      → IsOrdered xs
      → All (λ x. All (λ y. in_order x y ≡ true) (drop n xs)) (take n xs)
  best_first zero xs h = tt
  best_first (suc n) [] h = h
  best_first (suc n) (x ∷ xs) h = (All-drop x n xs h.0, best_first n xs h.1)

  collect-eligible :
      (cfg : PrefilterConfig) (obs : List (Observation W)) (k : PrefilterStats)
      → (collect cfg obs k).0 ≡ map (λ o. screened o) (eligible_of cfg obs)
  unfolding collect eligible_of is_eligible
  collect-eligible cfg [] k = refl
  collect-eligible cfg (o ∷ rest) k =
      let ih = collect-eligible cfg rest in
      elim (Bool-cases (observation_is_valid o)) [
        | inr n ↦ rw n (ih k)
        | inl v ↦ elim (Bool-cases (o.sample.state == 90)) [
          | inl z ↦ rw (v, z) (ih _)
          | inr z ↦ elim (Bool-cases (has_small_rss cfg o.sample)) [
            | inl s ↦ rw (v, z, s) (ih _)
            | inr s ↦ elim (Bool-cases (has_cheap_activity_signal o)) [
              | inr q ↦ rw (v, z, s, q) (ih _)
              | inl q ↦ rw (v, z, s, q) (ap (λ xs. screened o ∷ xs) (ih _))
            ]
          ]
        ]
      ]

  -- The ways of the selection from `obs`, where `allocates` is whether the memory for the eligible ones is
  -- there: it is asked for only where there are observations.
  pub data Selected (allocates : Bool) (cfg : PrefilterConfig) (room : ℕ)
      (obs : List (Observation W)) (eligible : List (Screened W))
      : PrefilterRc × List (Screened W) × PrefilterStats → Type 0 where
    no_memory :
        (k : PrefilterStats)
        → allocates ≡ false
        → 0 < length obs
        → Selected allocates cfg room obs eligible (PrefilterRc.no_memory, [], k)
    no_space :
        (k : PrefilterStats)
        → allocates ≡ true
        → 0 < length obs
        → room < wanted cfg (length eligible)
        → Selected allocates cfg room obs eligible (PrefilterRc.no_space, [], k)
    done :
        (out rest : List (Screened W)) (k : PrefilterStats)
        → (allocates ≡ true) ⊎ (length obs ≡ 0)
        → Perm (out ++ rest) eligible
        → All (λ x. All (λ y. in_order x y ≡ true) rest) out
        → length out ≡ wanted cfg (length (out ++ rest))
        → length out ≤ room
        → k.selected_candidates ≡ length out
        → k.eligible_candidates ≡ length (out ++ rest)
        → Selected allocates cfg room obs eligible (PrefilterRc.ok, out, k)

  length-Permᴰ : {xs ys : List (Screened W)} → Permᴰ xs ys → length xs ≡ length ys
  length-Permᴰ Permᴰ.nil = refl
  length-Permᴰ (Permᴰ.cons e p) = ap suc (length-Permᴰ p)
  length-Permᴰ (Permᴰ.swap e f) = refl
  length-Permᴰ (Permᴰ.trans p q) = length-Permᴰ p ∙ length-Permᴰ q

  length-Perm : {xs ys : List (Screened W)} → Perm xs ys → length xs ≡ length ys
  length-Perm p = ∥∥₁_elim p (ℕ_set _ _) length-Permᴰ

  select-Selected :
      (cfg : PrefilterConfig) (room : ℕ) (obs : List (Observation W))
      (sorted eligible : List (Screened W)) (k : PrefilterStats)
      → 0 < length obs
      → Perm sorted eligible
      → IsOrdered sorted
      → Selected true cfg room obs eligible (select cfg room sorted k)
  unfolding select
  select-Selected cfg room obs sorted eligible k some_obs p o =
      let count = length sorted in
      let limit =
        if ltb 0 cfg.max_candidates && ltb cfg.max_candidates count
        then cfg.max_candidates
        else count in
      let asked : limit ≡ wanted cfg count = ground arith in
      elim (Bool-cases (ltb room limit)) [
        | inl short ↦
            rw short (Selected.no_space _ refl some_obs (ground (arith, asked, length-Perm p)))
        | inr fits ↦
            let whole = take-drop limit sorted in
            let number : length (take limit sorted) ≡ limit =
              length-take limit sorted ∙ ground arith in
            rw fits (
              Selected.done (take limit sorted) (drop limit sorted) _ (inl refl) (rw whole p)
                (best_first limit sorted o) (rw (whole, number) asked) (rw number (ground arith))
                (sym number) (rw whole refl))
      ]

  -- The selection from observations, where `qsort` permutes the eligible ones and puts them in order.
  -- On success the output is a list of candidates of eligible observations, as many as asked for, that
  -- fits in the buffer; no candidate that is left out ranks before one that is selected; and the
  -- statistics have the two numbers. The only errors are an allocation that fails, where there are
  -- observations, and a buffer that is smaller than the number that is asked for, where the allocation
  -- succeeds; then nothing is selected.
  pub select_topk-Selected :
      (sort : List (Screened W) → List (Screened W)) (allocates : Bool) (cfg : PrefilterConfig)
      (room : ℕ) (obs : List (Observation W))
      → let eligible = map (λ o. screened o) (eligible_of cfg obs) in
        Perm (sort eligible) eligible
        → IsOrdered (sort eligible)
        → Selected allocates cfg room obs eligible (select_topk sort allocates cfg room obs)
  unfolding select_topk eligible_of
  select_topk-Selected sort allocates cfg room [] p o =
      Selected.done [] [] prefilter_stats_reset (inr refl) (Perm.refl []) tt (ground arith)
        (omega arith) refl refl
  select_topk-Selected sort true cfg room (x ∷ rest) p o =
      let counted = record prefilter_stats_reset { observations = length (x ∷ rest) } in
      let (found, k) = collect cfg (x ∷ rest) counted in
      let same = collect-eligible cfg (x ∷ rest) counted in
      rw same (select-Selected cfg room (x ∷ rest) _ _ k (omega arith) p o)
  select_topk-Selected sort false cfg room (x ∷ rest) p o = Selected.no_memory _ refl (omega arith)
