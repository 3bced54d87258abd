-- ===== src/DramMapping/Tests.antt =====
-- Runs of the DRAM mapping, and its theorems at concrete inputs.
use cgroup_research.Prelude.{◌≡◌, refl, ◌↔◌, true, false, some, [], ◌∷◌, codes, arith}
use cgroup_research.DramMapping.Bits.{and_bits, parity_bits, or_bits}
use cgroup_research.DramMapping.Mapping.{
  MappingRc, DramMapping, CalibrationResult, is_ready, bank_class, bank_class_fast, class_from,
  parity64, same_bank_class, validate_masks, mask_among, init_from_calibration,
}
use cgroup_research.DramMapping.Classes.{same_bank_class_iff}
use cgroup_research.DramMapping.Install.{Installed, init_from_calibration_lem}

-- Bits 6 and 13, and bits 14 and 17.
abbrev two_masks : DramMapping
two_masks = record { masks = 8256 ∷ 147456 ∷ []; mask_set_id = codes "two"; ready = true }

abbrev calibrated : CalibrationResult
calibrated = record {
  status_success = true;
  acceptance_passed = true;
  bank_masks = 8256 ∷ 147456 ∷ 0 ∷ [];
  bank_mask_count = 2;
  mask_set_id = codes "two";
}

-- The address 0x24000 has bits 14 and 17, so only its bit 13 counts.
classifies : bank_class (some two_masks) 155648 0 ≡ (MappingRc.ok, 1)
unfolding bank_class is_ready bank_class_fast class_from parity64 parity_bits and_bits or_bits
classifies = refl

rejects_a_repeated_mask : validate_masks [] (8256 ∷ 147456 ∷ 8256 ∷ []) ≡ MappingRc.duplicate_mask
unfolding validate_masks mask_among
rejects_a_repeated_mask = refl

same_bank_class_iff_example :
    let (rc, same) = same_bank_class (some two_masks) 64 8192 false in
    let (rc1, class1) = bank_class (some two_masks) 64 0 in
    let (rc2, class2) = bank_class (some two_masks) 8192 0 in
    (rc ≡ MappingRc.ok)
    × (rc1 ≡ MappingRc.ok)
    × (rc2 ≡ MappingRc.ok)
    × ((same ≡ true) ↔ (class1 ≡ class2))
unfolding is_ready
same_bank_class_iff_example = same_bank_class_iff two_masks 64 8192 false 0 0 refl (omega arith)

init_from_calibration_lem_example : Installed calibrated (init_from_calibration calibrated)
init_from_calibration_lem_example = init_from_calibration_lem calibrated (omega arith)
