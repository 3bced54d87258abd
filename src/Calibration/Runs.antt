-- ===== src/Calibration/Runs.antt =====
-- When a run of the calibration succeeds.
use cgroup_research.Prelude.{
  ℕ, zero, suc, ◌≡◌, ◌≢◌, refl, inl, inr, true, false, Option, none, some, List, ◌==◌, arith,
  Bool-cases,
}
use cgroup_research.Prelude.Word.{Text}
use cgroup_research.Prelude.Double.{Double}
use cgroup_research.Calibration.Masks.{CalibrationRc, is_success, is_success-ok, not_success}
use cgroup_research.Calibration.Result.{Calibrated, load_result}
use cgroup_research.Calibration.Worker.{Signal, Waited, wait_child, terminate_process_group}
use cgroup_research.Calibration.Run.{
  CalibrationConfig, Launch, RunAnswers, RunOutcome, validate_calibration_config, judge,
  judged_file, settle, after_wait, after_launch, unlaunched, timeout_of, run_checked,
  calibration_run,
}

module _ {W : Type 0} ⦃d : Double W⦄ where
  -- The ways of a run; `stuck` is a wait that does not end on the fuel, `unended` an end of the
  -- worker that does not.
  pub data Ran (fuel : ℕ) (strtod : Text → Option (W × ℕ)) (answers : RunAnswers)
      (cfg : Option (CalibrationConfig W)) : Option (RunOutcome W) → Type 0 where
    stuck :
        (wait_child fuel answers.waiting (timeout_of cfg) ≡ none) → Ran fuel strtod answers cfg none
    unended :
        terminate_process_group fuel answers.waiting.ending_start answers.waiting.ending_turns
            answers.waiting.reaps
          ≡ none
        → Ran fuel strtod answers cfg none
    failed : (o : RunOutcome W) → o.rc ≢ CalibrationRc.ok → Ran fuel strtod answers cfg (some o)
    succeeded :
        (o : RunOutcome W)
        → o.rc ≡ CalibrationRc.ok
        → validate_calibration_config cfg ≡ CalibrationRc.ok
        → answers.removed ≡ true
        → answers.launch ≡ Launch.launched
        → wait_child fuel answers.waiting (timeout_of cfg)
          ≡ some (record { rc = CalibrationRc.ok; exit_code = some 0; signals = o.signals })
        → (load_result strtod answers.file).0 ≡ CalibrationRc.ok
        → o.out.result ≡ (load_result strtod answers.file).1.result
        → Ran fuel strtod answers cfg (some o)

  -- A worker that exits with another code than 0 makes no success of any file.
  judge-fails :
      (code : ℕ) (r : CalibrationRc × Calibrated W)
      → (code == 0) ≡ false
      → (judge code r).0 ≢ CalibrationRc.ok
  unfolding judge
  judge-fails code (CalibrationRc.rejected, out) h e = cc (rw h at e)
  judge-fails code (_, out) h e = cc (rw h at e)

  module _ (fuel : ℕ) (strtod : Text → Option (W × ℕ)) (answers : RunAnswers)
      (cfg : Option (CalibrationConfig W))
      (valid : validate_calibration_config cfg ≡ CalibrationRc.ok)
      (removed : answers.removed ≡ true) where
    settle-Ran :
        (rc : CalibrationRc) (code : Option ℕ) (signals : List Signal)
        → answers.launch ≡ Launch.launched
        → wait_child fuel answers.waiting (timeout_of cfg)
          ≡ some (record { rc = rc; exit_code = code; signals = signals })
        → Ran fuel strtod answers cfg (settle strtod answers.file rc code signals)
    unfolding settle judged_file judge
    settle-Ran CalibrationRc.ok (some zero) signals l e =
        elim (Bool-cases (is_success (load_result strtod answers.file).0)) [
          | inl good ↦
              Ran.succeeded _ (is_success-ok _ good) valid removed l e (is_success-ok _ good) refl
          | inr bad ↦ Ran.failed _ (not_success _ bad)
        ]
    settle-Ran CalibrationRc.ok (some (suc code)) signals l e =
        Ran.failed _ (judge-fails (suc code) (load_result strtod answers.file) (ground arith))
    settle-Ran CalibrationRc.ok none signals l e = Ran.failed _ (λ h. cc)
    settle-Ran CalibrationRc.timeout code signals l e = Ran.failed _ (λ h. cc)
    settle-Ran _ code signals l e = Ran.failed _ (λ h. cc)

    after_wait-Ran :
        (waited : Option Waited)
        → answers.launch ≡ Launch.launched
        → wait_child fuel answers.waiting (timeout_of cfg) ≡ waited
        → Ran fuel strtod answers cfg (after_wait strtod answers.file waited)
    unfolding after_wait
    after_wait-Ran none l e = Ran.stuck e
    after_wait-Ran (some w) l e = settle-Ran w.rc w.exit_code w.signals l e

    unlaunched-Ran :
        (signals : Option (List Signal))
        → terminate_process_group fuel answers.waiting.ending_start answers.waiting.ending_turns
            answers.waiting.reaps
          ≡ signals
        → Ran fuel strtod answers cfg (unlaunched signals)
    unlaunched-Ran none e = Ran.unended e
    unlaunched-Ran (some signals) e = Ran.failed _ (λ h. cc)

    after_launch-Ran :
        (launch : Launch)
        → answers.launch ≡ launch
        → Ran fuel strtod answers cfg (after_launch fuel strtod answers (timeout_of cfg) launch)
    unfolding after_launch
    after_launch-Ran Launch.no_child l = Ran.failed _ (λ h. cc)
    after_launch-Ran Launch.no_group l =
        unlaunched-Ran
          (terminate_process_group fuel answers.waiting.ending_start answers.waiting.ending_turns
            answers.waiting.reaps)
          refl
    after_launch-Ran Launch.launched l =
        after_wait-Ran (wait_child fuel answers.waiting (timeout_of cfg)) l refl

  run_checked-Ran :
      (fuel : ℕ) (strtod : Text → Option (W × ℕ)) (answers : RunAnswers)
      (cfg : Option (CalibrationConfig W)) (rc : CalibrationRc)
      → validate_calibration_config cfg ≡ rc
      → Ran fuel strtod answers cfg (run_checked fuel strtod answers cfg rc)
  unfolding run_checked
  run_checked-Ran fuel strtod answers cfg CalibrationRc.ok v = elim (Bool-cases answers.removed) [
    | inr stale ↦ rw stale (Ran.failed _ (λ h. cc))
    | inl gone ↦ simp gone (after_launch-Ran fuel strtod answers cfg v gone answers.launch refl)
  ]
  run_checked-Ran fuel strtod answers cfg _ v = Ran.failed _ (λ h. cc)

  -- A run of the calibration succeeds only with a valid configuration, after the old result file was
  -- removed, with a worker that was launched, reaped and exited with 0, and with a result file after it
  -- that the loader accepts; and then its result is that of the file. There is no result only where the
  -- wait for the worker, or the end of one that could not be launched, does not return on the fuel.
  pub calibration_run-Ran :
      (fuel : ℕ) (strtod : Text → Option (W × ℕ)) (answers : RunAnswers)
      (cfg : Option (CalibrationConfig W))
      → Ran fuel strtod answers cfg (calibration_run fuel strtod answers cfg)
  unfolding calibration_run
  calibration_run-Ran fuel strtod answers cfg =
      run_checked-Ran fuel strtod answers cfg (validate_calibration_config cfg) refl
