-- ===== src/Calibration/Result.antt =====
-- calibration.c: `calibration_load_result`.
use cgroup_research.Prelude.{
  ℕ, zero, suc, ◌-◌, ◌*◌, Bool, true, false, not, ◌||◌, Option, none, some, List, [], ◌∷◌, ◌++◌, ℤ,
  pos, negsuc, length, ltb, if◌then◌else◌, codes,
}
use cgroup_research.Prelude.Word.{Text}
use cgroup_research.Prelude.Double.{Double, nought}
use cgroup_research.Cgroup.Tree.{eq_text}
use cgroup_research.DramMapping.Mapping.{CalibrationResult}
use cgroup_research.Calibration.Json.{
  Cursor, extract_object, extract_array, extract_string, extract_bool, c_string,
}
use cgroup_research.Calibration.Masks.{
  CalibrationRc, is_success, extract_u64, extract_double, parse_bank_masks,
}

-- `struct calibration_metrics`
pub record Metrics (W : Type 0) : Type 0 where
  pub tp : ℕ
  pub tn : ℕ
  pub fp : ℕ
  pub fn : ℕ
  pub accuracy : W
  pub precision : W
  pub recall : W
  pub f1 : W

-- The texts that are written into `error_message`, with what is printed into them.
pub data CalibrationError : Type 0 where
  nothing invalid_config stale_result not_launched timed_out wait_failed unreadable :
      CalibrationError
  worker_says : Text → CalibrationError
  no_status no_acceptance gate_failed no_masks invalid_masks no_mask_set_id : CalibrationError
  no_holdout invalid_holdout : CalibrationError
  status_is : Text → CalibrationError
  exited_with : ℤ → CalibrationError

-- `error_message[0] == '\0'`
abbrev pub is_blank : CalibrationError → Bool
is_blank CalibrationError.nothing = true
is_blank (CalibrationError.worker_says []) = true
is_blank _ = false

-- `struct calibration_result`: `result` has the fields that a mapping is made of.
pub record Calibrated (W : Type 0) : Type 0 where
  pub result : CalibrationResult
  pub holdout : Metrics W
  pub worker_exit_code : ℤ
  pub error_message : CalibrationError

-- What the calls of `read_file_limited` give: `size` is what ftell gives, `content` what fread stores,
-- none where it stores less.
pub record ResultFile : Type 0 where
  pub opens : Bool
  pub seeks_end : Bool
  pub size : ℤ
  pub seeks_start : Bool
  pub allocates : Bool
  pub content : Option Text
  pub file_closes : Bool

abbrev pub too_large : ℤ → Bool
too_large (pos n) = ltb (4 * 1024 * 1024) n
too_large (negsuc n) = true

-- `none` is CALIBRATION_ERR_IO.
unfoldable pub read_file_limited : ResultFile → Option Text
read_file_limited file =
    if not file.opens
      || not file.seeks_end
      || too_large file.size
      || not file.seeks_start
      || not file.allocates
      || not file.file_closes
    then none
    else file.content

abbrev pub zeros : ℕ → List ℕ
zeros zero = []
zeros (suc n) = 0 ∷ zeros n

abbrev pub object_in : Option Cursor → Text → Option Cursor
object_in none key = none
object_in (some range) key = extract_object range key

abbrev pub passed_in : Option Cursor → Option Bool
passed_in none = none
passed_in (some acceptance) = extract_bool acceptance (codes "passed")

module _ {W : Type 0} ⦃d : Double W⦄ where
  abbrev pub zero_metrics : Metrics W
  zero_metrics = record {
    tp = 0;
    tn = 0;
    fp = 0;
    fn = 0;
    accuracy = nought;
    precision = nought;
    recall = nought;
    f1 = nought;
  }

  abbrev pub calibration_result_reset : Calibrated W
  calibration_result_reset = record {
    result = record {
      status_success = false;
      acceptance_passed = false;
      bank_masks = zeros 32;
      bank_mask_count = 0;
      mask_set_id = [];
    };
    holdout = zero_metrics;
    worker_exit_code = negsuc 0;
    error_message = CalibrationError.nothing;
  }

module _ {W : Type 0} where
  abbrev pub say : CalibrationError → Calibrated W → Calibrated W
  say error out = record out { error_message = error }

  -- The masks that were stored, in front of the rest of the array.
  abbrev pub store_masks : List ℕ → Calibrated W → Calibrated W
  store_masks masks out = record out {
    result = record out.result {
      bank_masks = masks ++ zeros (32 - length masks);
      bank_mask_count = length masks;
    };
  }

  -- A count of the object, where all went well before.
  abbrev pub count_into :
      Option ℕ → (ℕ → Metrics W → Metrics W) → Bool × Metrics W → Bool × Metrics W
  count_into value store (false, m) = (false, m)
  count_into none store (true, m) = (false, m)
  count_into (some n) store (true, m) = (true, store n m)

  abbrev pub ratio_into :
      Option W → (W → Metrics W → Metrics W) → Bool × Metrics W → Bool × Metrics W
  ratio_into value store (false, m) = (false, m)
  ratio_into none store (true, m) = (false, m)
  ratio_into (some x) store (true, m) = (true, store x m)

  -- The eight values of the object; `false` where one of them fails, with the values before it.
  unfoldable pub read_metrics : (Text → Option (W × ℕ)) → Cursor → Metrics W → Bool × Metrics W
  unfolding extract_u64 extract_double
  read_metrics strtod h m =
      let double = λ (key : Text). extract_double strtod h key in
      let r₁ = count_into (extract_u64 h (codes "tp")) (λ n k. record k { tp = n }) (true, m) in
      let r₂ = count_into (extract_u64 h (codes "tn")) (λ n k. record k { tn = n }) r₁ in
      let r₃ = count_into (extract_u64 h (codes "fp")) (λ n k. record k { fp = n }) r₂ in
      let r₄ = count_into (extract_u64 h (codes "fn")) (λ n k. record k { fn = n }) r₃ in
      let r₅ = ratio_into (double (codes "accuracy")) (λ x k. record k { accuracy = x }) r₄ in
      let r₆ = ratio_into (double (codes "precision")) (λ x k. record k { precision = x }) r₅ in
      let r₇ = ratio_into (double (codes "recall")) (λ x k. record k { recall = x }) r₆ in
      ratio_into (double (codes "f1")) (λ x k. record k { f1 = x }) r₇

  -- From the metrics on.
  unfoldable pub load_metrics :
      (Text → Option (W × ℕ)) → Option Cursor → Calibrated W → CalibrationRc × Calibrated W
  unfolding read_metrics
  load_metrics strtod none out = (CalibrationRc.json, say CalibrationError.no_holdout out)
  load_metrics strtod (some holdout) out =
      let (all, metrics) = read_metrics strtod holdout out.holdout in
      let out' = record out { holdout = metrics } in
      if all
      then (CalibrationRc.ok, out')
      else (CalibrationRc.json, say CalibrationError.invalid_holdout out')

  unfoldable pub load_name :
      (Text → Option (W × ℕ)) → Cursor → Option Text → Calibrated W → CalibrationRc × Calibrated W
  unfolding load_metrics extract_object
  load_name strtod root none out = (CalibrationRc.json, say CalibrationError.no_mask_set_id out)
  load_name strtod root (some id) out =
      load_metrics strtod (object_in (extract_object root (codes "metrics")) (codes "holdout"))
        (record out { result = record out.result { mask_set_id = c_string id } })

  unfoldable pub load_masks :
      (Text → Option (W × ℕ)) → Cursor → Option Cursor → Calibrated W → CalibrationRc × Calibrated W
  unfolding load_name parse_bank_masks extract_string
  load_masks strtod root none out = (CalibrationRc.json, say CalibrationError.no_masks out)
  load_masks strtod root (some array) out =
      let (rc, masks) = parse_bank_masks array in
      let out' = store_masks masks out in
      if not (is_success rc)
      then (rc, say CalibrationError.invalid_masks out')
      else load_name strtod root (extract_string root (codes "mask_set_id") 65) out'

  unfoldable pub load_acceptance :
      (Text → Option (W × ℕ)) → Cursor → Option Bool → Calibrated W → CalibrationRc × Calibrated W
  unfolding load_masks extract_array
  load_acceptance strtod root none out =
      (CalibrationRc.json, say CalibrationError.no_acceptance out)
  load_acceptance strtod root (some passed) out =
      let out' = record out { result = record out.result { acceptance_passed = passed } } in
      if not passed
      then (CalibrationRc.rejected, say CalibrationError.gate_failed out')
      else load_masks strtod root (extract_array root (codes "bank_masks")) out'

  unfoldable pub load_status :
      (Text → Option (W × ℕ)) → Cursor → Option Text → Calibrated W → CalibrationRc × Calibrated W
  unfolding load_acceptance extract_object extract_bool c_string
  load_status strtod root none out = (CalibrationRc.json, say CalibrationError.no_status out)
  load_status strtod root (some status) out =
      let success = eq_text (c_string status) (codes "success") in
      let out' = record out { result = record out.result { status_success = success } } in
      if not success
      then (
        CalibrationRc.rejected,
        if is_blank out.error_message
            then say (CalibrationError.status_is (c_string status)) out'
            else out',
      )
      else load_acceptance strtod root (passed_in (extract_object root (codes "acceptance"))) out'

  -- What the worker says itself goes first into the message.
  abbrev pub with_worker_error : Option Text → Calibrated W → Calibrated W
  with_worker_error none out = out
  with_worker_error (some error) out = say (CalibrationError.worker_says (c_string error)) out

module _ {W : Type 0} ⦃d : Double W⦄ where
  unfoldable pub load_json : (Text → Option (W × ℕ)) → Option Text → CalibrationRc × Calibrated W
  unfolding load_status extract_string
  load_json strtod none =
      (CalibrationRc.io, say CalibrationError.unreadable calibration_result_reset)
  load_json strtod (some json) =
      let root : Cursor = record { text = json; left = length json } in
      load_status strtod root (extract_string root (codes "status") 32)
        (with_worker_error (extract_string root (codes "error") 256) calibration_result_reset)

  -- The pointers are no null pointers.
  unfoldable pub load_result : (Text → Option (W × ℕ)) → ResultFile → CalibrationRc × Calibrated W
  unfolding load_json read_file_limited
  load_result strtod file = load_json strtod (read_file_limited file)
