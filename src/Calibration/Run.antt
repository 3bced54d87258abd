-- ===== src/Calibration/Run.antt =====
-- calibration.c: `calibration_run`, from the check of its configuration to the result.
use cgroup_research.Prelude.{
  ℕ, Bool, true, not, ◌||◌, Option, none, some, List, [], ◌∷◌, ◌++◌, pos, ◌==◌, if◌then◌else◌,
  codes,
}
use cgroup_research.Prelude.Word.{Text}
use cgroup_research.Prelude.Double.{Double, nought}
use cgroup_research.Cgroup.Decimal.{print_pid}
use cgroup_research.Calibration.Masks.{CalibrationRc}
use cgroup_research.Calibration.Result.{
  CalibrationError, is_blank, Calibrated, ResultFile, calibration_result_reset, say, load_result,
}
use cgroup_research.Calibration.Worker.{
  Signal, Waited, Waiting, terminate_process_group, wait_child,
}

-- `struct calibration_config`, whose five paths may be null pointers.
pub record CalibrationConfig (W : Type 0) : Type 0 where
  pub worker_path : Option Text
  pub kk_main_path : Option Text
  pub result_path : Option Text
  pub work_dir : Option Text
  pub log_path : Option Text
  pub runs : ℕ
  pub memory_percent : W
  pub measurements : ℕ
  pub timing_rounds : ℕ
  pub timeout_sec : ℕ
  pub keep_csv : Bool

-- The path is a null pointer or empty.
abbrev pub is_missing : Option Text → Bool
is_missing none = true
is_missing (some []) = true
is_missing (some (c ∷ s)) = c == 0

-- What launch_worker gives: the child with a group of its own; no child; or a child whose group cannot
-- be set, which is ended at once.
pub data Launch : Type 0 where
  launched no_child no_group : Launch

-- What the system answers in one run: whether the old result is removed or not there; the launch; what
-- the wait sees; and the result file after it.
pub record RunAnswers : Type 0 where
  pub removed : Bool
  pub launch : Launch
  pub waiting : Waiting
  pub file : ResultFile

-- What a run leaves: the return code, the result, and the signals that were sent to the worker.
pub record RunOutcome (W : Type 0) : Type 0 where
  pub rc : CalibrationRc
  pub out : Calibrated W
  pub signals : List Signal

module _ {W : Type 0} ⦃d : Double W⦄ where
  -- `cfg == NULL` is none.
  unfoldable pub validate_calibration_config : Option (CalibrationConfig W) → CalibrationRc
  validate_calibration_config none = CalibrationRc.invalid_arg
  validate_calibration_config (some cfg) =
      if is_missing cfg.worker_path
        || is_missing cfg.result_path
        || is_missing cfg.work_dir
        || cfg.runs == 0
        || cfg.measurements == 0
        || cfg.timing_rounds == 0
        || d.le cfg.memory_percent nought
        || d.lt (d.decimal 100 0) cfg.memory_percent
      then CalibrationRc.invalid_arg
      else CalibrationRc.ok

  -- From the result file on, with the exit code of the worker.
  unfoldable pub judge : ℕ → CalibrationRc × Calibrated W → CalibrationRc × Calibrated W
  judge code (load_rc, loaded) =
      let out = record loaded { worker_exit_code = pos code } in
      let told =
        if is_blank out.error_message
        then say (CalibrationError.exited_with (pos code)) out
        else out in
      if code == 0 then (load_rc, out) else elim load_rc [
        | CalibrationRc.rejected ↦ (CalibrationRc.rejected, out)
        | _ ↦ (CalibrationRc.worker_exit, told)
      ]

  abbrev pub fails_with : CalibrationRc → CalibrationError → List Signal → Option (RunOutcome W)
  fails_with rc error signals =
      some (record { rc = rc; out = say error calibration_result_reset; signals = signals })

  -- After a wait that reports the exit code.
  unfoldable pub judged_file :
      (Text → Option (W × ℕ)) → ResultFile → ℕ → List Signal → Option (RunOutcome W)
  unfolding judge load_result
  judged_file strtod file code signals =
      let (rc, out) = judge code (load_result strtod file) in
      some (record { rc = rc; out = out; signals = signals })

  -- The return codes of the wait. One that succeeds has written the exit code.
  unfoldable pub settle :
      (Text → Option (W × ℕ))
      → ResultFile
      → CalibrationRc
      → Option ℕ
      → List Signal
      → Option (RunOutcome W)
  unfolding judged_file
  settle strtod file CalibrationRc.ok (some code) signals = judged_file strtod file code signals
  settle strtod file CalibrationRc.ok none signals =
      fails_with CalibrationRc.wait_failed CalibrationError.wait_failed signals
  settle strtod file CalibrationRc.timeout code signals =
      fails_with CalibrationRc.timeout CalibrationError.timed_out signals
  settle strtod file rc code signals = fails_with rc CalibrationError.wait_failed signals

  -- After the wait; none is a wait without fuel.
  unfoldable pub after_wait :
      (Text → Option (W × ℕ)) → ResultFile → Option Waited → Option (RunOutcome W)
  unfolding settle
  after_wait strtod file none = none
  after_wait strtod file (some w) = settle strtod file w.rc w.exit_code w.signals

  abbrev pub unlaunched : Option (List Signal) → Option (RunOutcome W)
  unlaunched none = none
  unlaunched (some signals) =
      fails_with CalibrationRc.fork_failed CalibrationError.not_launched signals

  -- From the launch on.
  unfoldable pub after_launch :
      ℕ → (Text → Option (W × ℕ)) → RunAnswers → ℕ → Launch → Option (RunOutcome W)
  unfolding after_wait wait_child terminate_process_group
  after_launch fuel strtod answers timeout_sec Launch.no_child = unlaunched (some [])
  after_launch fuel strtod answers timeout_sec Launch.no_group = unlaunched (
      terminate_process_group fuel answers.waiting.ending_start answers.waiting.ending_turns
        answers.waiting.reaps)
  after_launch fuel strtod answers timeout_sec Launch.launched =
      after_wait strtod answers.file (wait_child fuel answers.waiting timeout_sec)

  abbrev pub timeout_of : Option (CalibrationConfig W) → ℕ
  timeout_of none = 0
  timeout_of (some cfg) = cfg.timeout_sec

  -- From the check of the configuration on.
  unfoldable pub run_checked :
      ℕ
      → (Text → Option (W × ℕ))
      → RunAnswers
      → Option (CalibrationConfig W)
      → CalibrationRc
      → Option (RunOutcome W)
  unfolding after_launch
  run_checked fuel strtod answers cfg CalibrationRc.ok =
      if not answers.removed
      then fails_with CalibrationRc.io CalibrationError.stale_result []
      else after_launch fuel strtod answers (timeout_of cfg) answers.launch
  run_checked fuel strtod answers cfg rc = fails_with rc CalibrationError.invalid_config []

  -- The output pointer is no null pointer. The loops of the wait have `fuel`; none is that it runs out.
  unfoldable pub calibration_run :
      ℕ
      → (Text → Option (W × ℕ))
      → RunAnswers
      → Option (CalibrationConfig W)
      → Option (RunOutcome W)
  unfolding validate_calibration_config run_checked
  calibration_run fuel strtod answers cfg =
      run_checked fuel strtod answers cfg (validate_calibration_config cfg)

abbrev pub given : Option Text → Text
given none = []
given (some s) = s

-- The optional arguments: those of an optional path, and the flag.
abbrev pub path_arguments : Option Text → List Text
path_arguments path = if is_missing path then [] else codes "--kk-main" ∷ given path ∷ []

-- The arguments of the worker, whose percentage is printed with "%.6g" by `print`; the paths are no null
-- pointers, since the configuration is valid.
unfoldable pub worker_arguments : {W : Type 0} → (W → Text) → CalibrationConfig W → List Text
unfolding print_pid
worker_arguments print cfg =
    given cfg.worker_path
    ∷ codes "--runs"
    ∷ print_pid (pos cfg.runs)
    ∷ codes "--memory-percent"
    ∷ print cfg.memory_percent
    ∷ codes "--measurements"
    ∷ print_pid (pos cfg.measurements)
    ∷ codes "--timing-rounds"
    ∷ print_pid (pos cfg.timing_rounds)
    ∷ codes "--work-dir"
    ∷ given cfg.work_dir
    ∷ codes "--output"
    ∷ given cfg.result_path
    ∷ (path_arguments cfg.kk_main_path ++ (if cfg.keep_csv then codes "--keep-csv" ∷ [] else []))
