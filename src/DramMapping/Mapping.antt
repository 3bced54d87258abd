-- ===== src/DramMapping/Mapping.antt =====
-- dram_mapping.c: the mapping taken over from a calibration result, and the bank classes it gives.
use cgroup_research.Prelude.{
  ℕ, suc, ◌*◌, ◌%◌, ◌^◌, ◌||◌, ◌&&◌, Bool, true, false, not, Option, none, some, List, [], ◌∷◌,
  length, take, ltb, leb, ◌==◌, if◌then◌else◌,
}
use cgroup_research.Prelude.Word.{Text, word, bounded_strlen}
use cgroup_research.DramMapping.Bits.{and_bits, or_bits, xor_bits, parity_bits}

-- CALIBRATION_MAX_BANK_MASKS and CALIBRATION_MASK_SET_ID_MAX
abbrev pub max_masks : ℕ
max_masks = 32

abbrev pub mask_set_id_max : ℕ
mask_set_id_max = 65

-- `enum dram_mapping_rc`
pub data MappingRc : Type 0 where
  ok invalid_arg not_ready calibration_rejected mask_count zero_mask duplicate_mask mask_set_id :
      MappingRc

-- `struct dram_mapping`: `masks` lists the first `mask_count` masks, the text ends before its NUL.
pub record DramMapping : Type 0 where
  pub masks : List ℕ
  pub mask_set_id : Text
  pub ready : Bool

-- What `struct calibration_result` has of a mapping: its whole array of masks, and their number.
pub record CalibrationResult : Type 0 where
  pub status_success : Bool
  pub acceptance_passed : Bool
  pub bank_masks : List ℕ
  pub bank_mask_count : ℕ
  pub mask_set_id : Text

-- `parity64`: the number of bits that are 1, modulo 2.
unfoldable pub parity64 : ℕ → ℕ
parity64 value = parity_bits 64 value

abbrev pub reset : DramMapping
reset = record { masks = []; mask_set_id = []; ready = false }

unfoldable pub is_ready : DramMapping → Bool
is_ready mapping = mapping.ready && ltb 0 (length mapping.masks)

-- The inner loop: an earlier mask equals this one.
unfoldable pub mask_among : ℕ → List ℕ → Bool
mask_among m [] = false
mask_among m (x ∷ xs) = m == x || mask_among m xs

-- The outer loop; `earlier` lists the masks before this one.
unfoldable pub validate_masks : List ℕ → List ℕ → MappingRc
validate_masks earlier [] = MappingRc.ok
validate_masks earlier (m ∷ ms) =
    let rest = validate_masks (m ∷ earlier) ms in
    if m == 0
    then MappingRc.zero_mask
    else if mask_among m earlier
    then MappingRc.duplicate_mask
    else rest

unfoldable pub validate_calibration_result : CalibrationResult → MappingRc
validate_calibration_result result =
    let id_len = bounded_strlen result.mask_set_id mask_set_id_max in
    if not result.status_success || not result.acceptance_passed
    then MappingRc.calibration_rejected
    else if result.bank_mask_count == 0 || ltb max_masks result.bank_mask_count
    then MappingRc.mask_count
    else if id_len == 0 || leb mask_set_id_max id_len
    then MappingRc.mask_set_id
    else validate_masks [] (take result.bank_mask_count result.bank_masks)

-- From the result of the validation on.
unfoldable pub install : MappingRc → CalibrationResult → MappingRc × DramMapping
install MappingRc.ok result = (
  MappingRc.ok,
  record {
    masks = take result.bank_mask_count result.bank_masks;
    mask_set_id = take (bounded_strlen result.mask_set_id mask_set_id_max) result.mask_set_id;
    ready = true;
  },
)
install rc result = (rc, reset)

-- The pointers are no null pointers.
unfoldable pub init_from_calibration : CalibrationResult → MappingRc × DramMapping
unfolding install
init_from_calibration result = install (validate_calibration_result result) result

-- The loop over the masks from index `i` on; bits that leave the word are lost.
unfoldable pub class_from : ℕ → ℕ → ℕ → List ℕ → ℕ
unfolding parity64
class_from pa bank_class i [] = bank_class
class_from pa bank_class i (m ∷ ms) =
    let bit = parity64 (and_bits 64 pa m) in
    class_from pa (or_bits 64 bank_class ((bit * 2 ^ i) % word)) (suc i) ms

unfoldable pub bank_class_fast : DramMapping → ℕ → ℕ
bank_class_fast mapping pa = class_from pa 0 0 mapping.masks

-- A failure leaves what the output pointer points at alone.
unfoldable pub bank_class : Option DramMapping → ℕ → ℕ → MappingRc × ℕ
bank_class none pa out = (MappingRc.invalid_arg, out)
bank_class (some mapping) pa out =
    if is_ready mapping
    then (MappingRc.ok, bank_class_fast mapping pa)
    else (MappingRc.not_ready, out)

-- The loop over the masks, with its early return.
unfoldable pub no_mask_differs : ℕ → List ℕ → Bool
no_mask_differs diff [] = true
no_mask_differs diff (m ∷ ms) =
    let rest = no_mask_differs diff ms in
    if not (parity64 (and_bits 64 diff m) == 0) then false else rest

unfoldable pub same_bank_class : Option DramMapping → ℕ → ℕ → Bool → MappingRc × Bool
same_bank_class none pa1 pa2 out = (MappingRc.invalid_arg, out)
same_bank_class (some mapping) pa1 pa2 out =
    if is_ready mapping
    then (MappingRc.ok, no_mask_differs (xor_bits 64 pa1 pa2) mapping.masks)
    else (MappingRc.not_ready, out)
