-- ===== src/DramMapping/Install.antt =====
-- What `dram_mapping_init_from_calibration` accepts.
use cgroup_research.Prelude.{
  ℕ, suc, ◌≤◌, ◌<◌, ◌≡◌, ◌≢◌, ◌⊎◌, ◌↔◌, true, false, List, [], ◌∷◌, length, take, All, arith,
}
use cgroup_research.Prelude.Word.{bounded_strlen}
use cgroup_research.DramMapping.Mapping.{
  max_masks, mask_set_id_max, MappingRc, DramMapping, CalibrationResult, is_ready, mask_among,
  validate_masks, validate_calibration_result, install, init_from_calibration,
}

length-take_eq : {A : Type 0} (n : ℕ) (xs : List A) → n ≤ length xs → length (take n xs) ≡ n
length-take_eq ℕ.zero xs h = omega arith
length-take_eq (suc n) [] h = omega arith
length-take_eq (suc n) (x ∷ xs) h = omega (arith, length-take_eq n xs)

length-take : {A : Type 0} (n : ℕ) (xs : List A) → length (take n xs) ≤ n
length-take ℕ.zero xs = omega arith
length-take (suc n) [] = omega arith
length-take (suc n) (x ∷ xs) = omega (arith, length-take n xs)

-- No mask is zero or equals one of the earlier ones.
abbrev pub Separate : List ℕ → List ℕ → Type 0
Separate earlier [] = Unit
Separate earlier (m ∷ ms) = (m ≢ 0) × All (λ x. m ≢ x) earlier × Separate (m ∷ earlier) ms

mask_among_none : (m : ℕ) (xs : List ℕ) → (mask_among m xs ≡ false) ↔ All (λ x. m ≢ x) xs
unfolding mask_among
mask_among_none m [] = ground arith
mask_among_none m (x ∷ xs) = ground (arith, mask_among_none m xs)

pub validate_masks_iff :
    (earlier ms : List ℕ) → (validate_masks earlier ms ≡ MappingRc.ok) ↔ Separate earlier ms
unfolding validate_masks
validate_masks_iff earlier [] = ground arith
validate_masks_iff earlier (m ∷ ms) =
    ground (arith, mask_among_none m earlier, validate_masks_iff (m ∷ earlier) ms)

-- What an accepted calibration result fulfils.
pub record IsAcceptable (result : CalibrationResult) : Type 0 where
  pub succeeded : result.status_success ≡ true
  pub passed : result.acceptance_passed ≡ true
  pub some_masks : 0 < result.bank_mask_count
  pub few_masks : result.bank_mask_count ≤ max_masks
  pub named : 0 < bounded_strlen result.mask_set_id mask_set_id_max
  pub terminated : bounded_strlen result.mask_set_id mask_set_id_max < mask_set_id_max
  pub separate : Separate [] (take result.bank_mask_count result.bank_masks)

-- The validation accepts exactly the results that succeeded, passed, have between 1 and 32 masks, all
-- of them different from 0 and from each other, and a terminated name that is not empty.
pub validate_calibration_result_iff :
    (result : CalibrationResult)
    → (validate_calibration_result result ≡ MappingRc.ok) ↔ IsAcceptable result
unfolding validate_calibration_result
validate_calibration_result_iff result = (
  λ h. ground (arith, (validate_masks_iff [] (take result.bank_mask_count result.bank_masks)).0),
  λ h. ground (arith, (validate_masks_iff [] (take result.bank_mask_count result.bank_masks)).1),
)

-- What an initialisation leaves, by whether it succeeds.
abbrev pub Installed : CalibrationResult → MappingRc × DramMapping → Type 0
Installed result (rc, mapping) =
    ((rc ≡ MappingRc.ok)
      × IsAcceptable result
      × (is_ready mapping ≡ true)
      × (mapping.masks ≡ take result.bank_mask_count result.bank_masks)
      × (length mapping.masks ≤ max_masks))
    ⊎ ((rc ≢ MappingRc.ok) × (is_ready mapping ≡ false))

install-Installed :
    (rc : MappingRc) (result : CalibrationResult)
    → result.bank_mask_count ≤ length result.bank_masks
    → (rc ≡ MappingRc.ok → IsAcceptable result)
    → Installed result (install rc result)
unfolding install is_ready
install-Installed rc result b h =
    ground (arith, length-take_eq result.bank_mask_count result.bank_masks)

-- An initialisation succeeds only on an acceptable result, and then takes over its masks, at most 32,
-- into a mapping that is ready; every other leaves a mapping that is not ready.
pub init_from_calibration_lem :
    (result : CalibrationResult)
    → result.bank_mask_count ≤ length result.bank_masks
    → Installed result (init_from_calibration result)
unfolding init_from_calibration
init_from_calibration_lem result b =
    install-Installed (validate_calibration_result result) result b
      (validate_calibration_result_iff result).0
