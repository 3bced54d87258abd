-- ===== src/Calibration/Accepted.antt =====
-- What a result file must say to be accepted.
use cgroup_research.Prelude.{
  ℕ, zero, suc, ◌-◌, ◌≤◌, ◌<◌, ◌≡◌, refl, inl, inr, Bool, true, false, not, ◌&&◌, ◌||◌, Option,
  none, some, List, [], ◌∷◌, ◌++◌, length, ◌==◌, arith, codes, Bool-cases,
}
use cgroup_research.Prelude.Word.{Text}
use cgroup_research.Prelude.Double.{Double}
use cgroup_research.Cgroup.Tree.{eq_text}
use cgroup_research.BankProfile.Sampling.{char_at}
use cgroup_research.Activity.Stat.{from}
use cgroup_research.DramMapping.Mapping.{CalibrationResult, mask_set_id_max}
use cgroup_research.Calibration.Json.{
  Cursor, extract_object, extract_array, extract_string, find_key_value, read_string, string_at,
  c_string,
}
use cgroup_research.Calibration.Masks.{
  CalibrationRc, is_success, is_success-ok, not_success, parse_bank_masks,
}
use cgroup_research.Calibration.Result.{
  Calibrated, ResultFile, zeros, read_metrics, object_in, load_metrics, load_name, load_masks,
  load_acceptance, load_status, load_json, load_result, passed_in, with_worker_error,
  calibration_result_reset, read_file_limited,
}
use cgroup_research.Calibration.Scanned.{AreMasks, scan_masks-Scanned}

-- A string, if there is one, fits in its buffer.
abbrev Fits : ℕ → Option Text → Type 0
Fits room none = Unit
Fits room (some t) = length t ≤ room

stored-Fits :
    (c room : ℕ) (o : Option Text)
    → 0 < room
    → Fits (room - 1) o
    → Fits room (elim o [ none ↦ none | some t ↦ some (c ∷ t) ])
stored-Fits c room none h k = tt
stored-Fits c room (some t) h k = omega arith

read_string-Fits :
    (room left : ℕ) (s : Text) (after : Bool) → Fits room (read_string room left s after)
unfolding read_string
read_string-Fits room zero s after = tt
read_string-Fits room (suc left) [] after = tt
read_string-Fits room (suc left) (c ∷ s) after = elim (Bool-cases (not after && c == 92)) [
  | inl escape ↦ rw escape (read_string-Fits room left s true)
  | inr plain ↦ elim (Bool-cases (not after && c == 34)) [
    | inl quote ↦ rw (plain, quote) (omega arith)
    | inr inner ↦ elim (Bool-cases (room == 0)) [
      | inl full ↦ rw (plain, inner, full) tt
      | inr more ↦
          rw (plain, inner, more)
            (stored-Fits c room _ (ground arith) (read_string-Fits (room - 1) left s false))
    ]
  ]
]

string_at-Fits : (o : Option Cursor) → Fits 64 (string_at 65 o)
string_at-Fits none = tt
string_at-Fits (some p) = elim (Bool-cases (p.left == 0 || not (char_at p.text 0 == 34))) [
  | inl other ↦ rw other tt
  | inr quote ↦ rw quote (read_string-Fits 64 (p.left - 1) (from 1 p.text) false)
]

c_string-short : (s : Text) → length (c_string s) ≤ length s
unfolding c_string
c_string-short [] = omega arith
c_string-short (c ∷ s) = ground (arith, c_string-short s)

-- A result that the loader accepts.
pub record IsLoaded (r : CalibrationResult) : Type 0 where
  pub masks : List ℕ
  pub succeeded : r.status_success ≡ true
  pub passed : r.acceptance_passed ≡ true
  pub are_masks : AreMasks masks
  pub some_masks : 0 < length masks
  pub stored : r.bank_masks ≡ masks ++ zeros (32 - length masks)
  pub counted : r.bank_mask_count ≡ length masks
  pub name_fits : length r.mask_set_id < mask_set_id_max

-- The parts of a result before its name is read.
record IsPrepared (r : CalibrationResult) (masks : List ℕ) : Type 0 where
  succeeded : r.status_success ≡ true
  passed : r.acceptance_passed ≡ true
  are_masks : AreMasks masks
  some_masks : 0 < length masks
  stored : r.bank_masks ≡ masks ++ zeros (32 - length masks)
  counted : r.bank_mask_count ≡ length masks

module _ {W : Type 0} where
  -- The ways of the loader.
  pub data Loaded : CalibrationRc × Calibrated W → Type 0 where
    refused :
        (rc : CalibrationRc) (out : Calibrated W) → (rc ≡ CalibrationRc.ok → ⊥) → Loaded (rc, out)
    accepted : (out : Calibrated W) → IsLoaded out.result → Loaded (CalibrationRc.ok, out)

  load_metrics-Loaded :
      (strtod : Text → Option (W × ℕ)) (holdout : Option Cursor) (out : Calibrated W)
      → IsLoaded out.result
      → Loaded (load_metrics strtod holdout out)
  unfolding load_metrics
  load_metrics-Loaded strtod none out h = Loaded.refused CalibrationRc.json _ (λ e. cc)
  load_metrics-Loaded strtod (some holdout) out h =
      elim (Bool-cases (read_metrics strtod holdout out.holdout).0) [
        | inl all ↦ rw all (Loaded.accepted _ h)
        | inr bad ↦ rw bad (Loaded.refused CalibrationRc.json _ (λ e. cc))
      ]

  load_name-Loaded :
      (strtod : Text → Option (W × ℕ)) (root : Cursor) (id : Option Text) (out : Calibrated W)
      (masks : List ℕ)
      → Fits 64 id
      → IsPrepared out.result masks
      → Loaded (load_name strtod root id out)
  unfolding load_name
  load_name-Loaded strtod root none out masks f h = Loaded.refused CalibrationRc.json _ (λ e. cc)
  load_name-Loaded strtod root (some id) out masks f h =
      load_metrics-Loaded strtod
        (object_in (extract_object root (codes "metrics")) (codes "holdout"))
        (record out { result = record out.result { mask_set_id = c_string id } })
        (record {
          masks = masks;
          succeeded = h.succeeded;
          passed = h.passed;
          are_masks = h.are_masks;
          some_masks = h.some_masks;
          stored = h.stored;
          counted = h.counted;
          name_fits = omega (arith, c_string-short id);
        })

  load_masks-Loaded :
      (strtod : Text → Option (W × ℕ)) (root : Cursor) (array : Option Cursor) (out : Calibrated W)
      → out.result.status_success ≡ true
      → out.result.acceptance_passed ≡ true
      → Loaded (load_masks strtod root array out)
  unfolding load_masks parse_bank_masks extract_string
  load_masks-Loaded strtod root none out s p = Loaded.refused CalibrationRc.json _ (λ e. cc)
  load_masks-Loaded strtod root (some array) out s p =
      let h =
        scan_masks-Scanned none (array.left - 2) (from 1 array.text) []
          (record { few = omega arith; nonzero = tt }) in
      elim (Bool-cases (is_success (parse_bank_masks array).0)) [
        | inr bad ↦ rw bad (Loaded.refused _ _ (not_success _ bad))
        | inl good ↦ rw good (
            load_name-Loaded strtod root _ _ (parse_bank_masks array).1
              (string_at-Fits (find_key_value root (codes "mask_set_id")))
              (record {
                succeeded = s;
                passed = p;
                are_masks = h.are_masks;
                some_masks = h.some_masks (is_success-ok _ good);
                stored = refl;
                counted = refl;
              }))
      ]

  load_acceptance-Loaded :
      (strtod : Text → Option (W × ℕ)) (root : Cursor) (passed : Option Bool) (out : Calibrated W)
      → out.result.status_success ≡ true
      → Loaded (load_acceptance strtod root passed out)
  unfolding load_acceptance
  load_acceptance-Loaded strtod root none out s = Loaded.refused CalibrationRc.json _ (λ e. cc)
  load_acceptance-Loaded strtod root (some false) out s =
      Loaded.refused CalibrationRc.rejected _ (λ e. cc)
  load_acceptance-Loaded strtod root (some true) out s =
      load_masks-Loaded strtod root (extract_array root (codes "bank_masks"))
        (record out { result = record out.result { acceptance_passed = true } }) s refl

  load_status-Loaded :
      (strtod : Text → Option (W × ℕ)) (root : Cursor) (status : Option Text) (out : Calibrated W)
      → Loaded (load_status strtod root status out)
  unfolding load_status
  load_status-Loaded strtod root none out = Loaded.refused CalibrationRc.json _ (λ e. cc)
  load_status-Loaded strtod root (some status) out =
      elim (Bool-cases (eq_text (c_string status) (codes "success"))) [
        | inr other ↦ rw other (Loaded.refused CalibrationRc.rejected _ (λ e. cc))
        | inl success ↦ rw success (
            load_acceptance-Loaded strtod root
              (passed_in (extract_object root (codes "acceptance")))
              (record out { result = record out.result { status_success = true } }) refl)
      ]

module _ {W : Type 0} ⦃d : Double W⦄ where
  load_json-Loaded :
      (strtod : Text → Option (W × ℕ)) (json : Option Text) → Loaded (load_json strtod json)
  unfolding load_json
  load_json-Loaded strtod none = Loaded.refused CalibrationRc.io _ (λ e. cc)
  load_json-Loaded strtod (some json) =
      let root : Cursor = record { text = json; left = length json } in
      load_status-Loaded strtod root (extract_string root (codes "status") 32)
        (with_worker_error (extract_string root (codes "error") 256) calibration_result_reset)

  -- The loader accepts a result file only with the status of success and a passed acceptance, with at
  -- least one and at most 32 masks, none of them 0, which stand in front of the array with their number,
  -- and with a name that fits with its NUL.
  pub load_result-Loaded :
      (strtod : Text → Option (W × ℕ)) (file : ResultFile) → Loaded (load_result strtod file)
  unfolding load_result
  load_result-Loaded strtod file = load_json-Loaded strtod (read_file_limited file)
