-- ===== src/Calibration/Taken.antt =====
-- What the DRAM mapping makes of a result file that the loader accepts.
use cgroup_research.Prelude.{
  ℕ, zero, suc, ◌<◌, ◌≡◌, ◌⊎◌, refl, ap, ◌∙◌, inl, inr, false, not, ◌||◌, Option, List, [], ◌∷◌,
  ◌++◌, ◌-◌, ◌≢◌, All, length, take, ltb, leb, ◌==◌, arith, Bool-cases,
}
use cgroup_research.Prelude.Word.{Text, bounded_strlen}
use cgroup_research.Prelude.Double.{Double}
use cgroup_research.DramMapping.Mapping.{
  MappingRc, CalibrationResult, mask_set_id_max, mask_among, validate_masks,
  validate_calibration_result, install, init_from_calibration,
}
use cgroup_research.DramMapping.Install.{Separate, validate_masks_iff}
use cgroup_research.Calibration.Masks.{CalibrationRc}
use cgroup_research.Calibration.Result.{Calibrated, ResultFile, load_result}
use cgroup_research.Calibration.Accepted.{IsLoaded, Loaded, load_result-Loaded}

take-zeros : (xs ys : List ℕ) → take (length xs) (xs ++ ys) ≡ xs
take-zeros [] ys = refl
take-zeros (x ∷ xs) ys = ap (λ zs. x ∷ zs) (take-zeros xs ys)

validate_masks-nonzero :
    (earlier masks : List ℕ)
    → All (λ m. (m == 0) ≡ false) masks
    → (validate_masks earlier masks ≡ MappingRc.ok)
      ⊎ (validate_masks earlier masks ≡ MappingRc.duplicate_mask)
unfolding validate_masks
validate_masks-nonzero earlier [] h = inl refl
validate_masks-nonzero earlier (m ∷ ms) h = elim (Bool-cases (mask_among m earlier)) [
  | inl again ↦ rw (h.0, again) (inr refl)
  | inr fresh ↦ rw (h.0, fresh) (validate_masks-nonzero (m ∷ earlier) ms h.1)
]

bounded_strlen-lt : (s : Text) (cap : ℕ) → length s < cap → bounded_strlen s cap < cap
unfolding bounded_strlen
bounded_strlen-lt [] cap h = omega arith
bounded_strlen-lt (c ∷ s) zero h = omega arith
bounded_strlen-lt (c ∷ s) (suc cap) h = ground (arith, bounded_strlen-lt s cap (omega arith))

install_rc : (rc : MappingRc) (r : CalibrationResult) → (install rc r).0 ≡ rc
unfolding install
install_rc rc r = ground arith

-- A name that is empty as a C string.
abbrev pub IsNameless : Text → Type 0
IsNameless [] = Unit
IsNameless (c ∷ s) = c ≡ 0

bounded_strlen-IsNameless : (s : Text) (cap : ℕ) → bounded_strlen s (suc cap) ≡ 0 → IsNameless s
unfolding bounded_strlen
bounded_strlen-IsNameless [] cap h = tt
bounded_strlen-IsNameless (c ∷ s) cap h = ground arith

-- The masks that a result announces.
abbrev pub masks_of : CalibrationResult → List ℕ
masks_of r = take r.bank_mask_count r.bank_masks

-- How the validation of a mapping may end on a result, whose name is in any case short enough.
pub data Taken (r : CalibrationResult) : MappingRc → Type 0 where
  ok : length r.mask_set_id < mask_set_id_max → Separate [] (masks_of r) → Taken r MappingRc.ok
  duplicate_mask :
      length r.mask_set_id < mask_set_id_max
      → All (λ m. m ≢ 0) (masks_of r)
      → (Separate [] (masks_of r) → ⊥)
      → Taken r MappingRc.duplicate_mask
  mask_set_id :
      length r.mask_set_id < mask_set_id_max
      → IsNameless r.mask_set_id
      → Taken r MappingRc.mask_set_id

nonzero_masks : (ms : List ℕ) → All (λ m. (m == 0) ≡ false) ms → All (λ m. m ≢ 0) ms
nonzero_masks [] h = tt
nonzero_masks (m ∷ ms) h = (λ e. ground arith, nonzero_masks ms h.1)

not_ok : {rc : MappingRc} → rc ≡ MappingRc.duplicate_mask → rc ≡ MappingRc.ok → ⊥
not_ok h k = cc

IsLoaded-Taken : (r : CalibrationResult) → IsLoaded r → Taken r (validate_calibration_result r)
unfolding validate_calibration_result
IsLoaded-Taken r h =
    let few = h.are_masks.few in
    let some_masks = h.some_masks in
    let short = bounded_strlen-lt r.mask_set_id mask_set_id_max h.name_fits in
    let rejected : (not r.status_success || not r.acceptance_passed) ≡ false =
      ground (arith, h.succeeded, h.passed) in
    let number : (r.bank_mask_count == 0 || ltb 32 r.bank_mask_count) ≡ false =
      ground (arith, h.counted) in
    let taken : take r.bank_mask_count r.bank_masks ≡ h.masks =
      ap (λ n. take n r.bank_masks) h.counted
      ∙ ap (take (length h.masks)) h.stored
      ∙ take-zeros h.masks _ in
    elim (Bool-cases (bounded_strlen r.mask_set_id mask_set_id_max == 0)) [
      | inl empty ↦
          simp (rejected, number, empty)
            (Taken.mask_set_id h.name_fits
              (bounded_strlen-IsNameless r.mask_set_id (mask_set_id_max - 1) (ground arith)))
      | inr there ↦
          let fits : leb mask_set_id_max (bounded_strlen r.mask_set_id mask_set_id_max) ≡ false =
            ground arith in
          elim (validate_masks-nonzero [] h.masks h.are_masks.nonzero) [
            | inl fine ↦
                simp (rejected, number, there, fits, taken, fine)
                  (Taken.ok h.name_fits (rw taken ((validate_masks_iff [] h.masks).0 fine)))
            | inr again ↦
                simp (rejected, number, there, fits, taken, again)
                  (Taken.duplicate_mask h.name_fits
                    (rw taken (nonzero_masks h.masks h.are_masks.nonzero))
                    (rw taken (λ s. not_ok again ((validate_masks_iff [] h.masks).1 s))))
          ]
    ]

Loaded-Taken :
    {W : Type 0} (r : CalibrationRc × Calibrated W)
    → Loaded r
    → r.0 ≡ CalibrationRc.ok
    → Taken r.1.result (init_from_calibration r.1.result).0
unfolding init_from_calibration
Loaded-Taken r (Loaded.refused rc out n) e = absurd (n e)
Loaded-Taken r (Loaded.accepted out h) e =
    rw (install_rc (validate_calibration_result out.result) out.result)
      (IsLoaded-Taken out.result h)

module _ {W : Type 0} ⦃d : Double W⦄ where
  -- The DRAM mapping takes a result file that the loader accepts, but for two cases that only the
  -- mapping looks at: it refuses for a duplicate mask only where the masks, none of which is 0, are not
  -- all different, and for the name only where the name is empty. The name is never too long.
  pub load_result-Taken :
      (strtod : Text → Option (W × ℕ)) (file : ResultFile)
      → (load_result strtod file).0 ≡ CalibrationRc.ok
      → let result = (load_result strtod file).1.result in
        Taken result (init_from_calibration result).0
  unfolding init_from_calibration
  load_result-Taken strtod file h =
      Loaded-Taken (load_result strtod file) (load_result-Loaded strtod file) h
