-- ===== src/Calibration/Returns.antt =====
-- How a run of the calibration with a time limit ends.
use cgroup_research.Prelude.{ℕ, ◌*◌, ◌<◌, ◌≡◌, refl, inl, inr, Option, none, some, List, Bool-cases}
use cgroup_research.Prelude.Word.{Text}
use cgroup_research.Prelude.Double.{Double}
use cgroup_research.Calibration.Masks.{CalibrationRc}
use cgroup_research.Calibration.Worker.{Signal, Waited, wait_child, terminate_process_group}
use cgroup_research.Calibration.Waits.{
  There, IsEnding, IsTicking, terminate_process_group-There, wait_child-returns,
}
use cgroup_research.Calibration.Run.{
  CalibrationConfig, Launch, RunAnswers, RunOutcome, validate_calibration_config, judged_file,
  settle, after_wait, after_launch, unlaunched, run_checked, calibration_run,
}

-- A value is there.
abbrev pub IsThere : {A : Type 0} → Option A → Type 0
IsThere {A} o = (a : A) × (o ≡ some a)

module _ {W : Type 0} ⦃d : Double W⦄ (strtod : Text → Option (W × ℕ)) (answers : RunAnswers) where
  settle-There :
      (rc : CalibrationRc) (code : Option ℕ) (signals : List Signal)
      → IsThere {A = RunOutcome W} (settle strtod answers.file rc code signals)
  unfolding settle judged_file
  settle-There CalibrationRc.ok (some code) signals = (_, refl)
  settle-There CalibrationRc.ok none signals = (_, refl)
  settle-There CalibrationRc.timeout code signals = (_, refl)
  settle-There _ code signals = (_, refl)

  after_wait-There :
      (waited : Option Waited)
      → IsThere waited
      → IsThere {A = RunOutcome W} (after_wait strtod answers.file waited)
  unfolding after_wait
  after_wait-There waited (w, e) = rw e (settle-There w.rc w.exit_code w.signals)

  unlaunched-There :
      (signals : Option (List Signal))
      → There IsEnding signals
      → IsThere {A = RunOutcome W} (unlaunched signals)
  unlaunched-There signals (s, e, p) = rw e (_, refl)

  module _ (fuel timeout_sec : ℕ) (t : IsTicking answers.waiting) (limited : 0 < timeout_sec)
      (enough : 10 * timeout_sec < fuel) (grace : 20 < fuel) (killed : t.last < fuel) where
    after_launch-There :
        (launch : Launch)
        → IsThere {A = RunOutcome W} (after_launch fuel strtod answers timeout_sec launch)
    unfolding after_launch
    after_launch-There Launch.no_child = (_, refl)
    after_launch-There Launch.no_group =
        unlaunched-There
          (terminate_process_group fuel answers.waiting.ending_start answers.waiting.ending_turns
            answers.waiting.reaps)
          (terminate_process_group-There fuel t.ending_start t.last answers.waiting.ending_start
            answers.waiting.ending_turns answers.waiting.reaps t.ending_start_read t.ending_ticks
            t.reaped grace killed)
    after_launch-There Launch.launched =
        let (w, e, r) =
          wait_child-returns fuel answers.waiting timeout_sec t limited enough grace killed in
        after_wait-There (wait_child fuel answers.waiting timeout_sec) (w, e)

  run_checked-There :
      (fuel : ℕ) (cfg : CalibrationConfig W) (rc : CalibrationRc) (t : IsTicking answers.waiting)
      → 0 < cfg.timeout_sec
      → 10 * cfg.timeout_sec < fuel
      → 20 < fuel
      → t.last < fuel
      → IsThere (run_checked fuel strtod answers (some cfg) rc)
  unfolding run_checked
  run_checked-There fuel cfg CalibrationRc.ok t limited enough grace killed =
      elim (Bool-cases answers.removed) [
        | inr stale ↦ simp stale (_, refl)
        | inl gone ↦
            let ran =
              after_launch-There fuel cfg.timeout_sec t limited enough grace killed
                answers.launch in
            simp gone ran
      ]
  run_checked-There fuel cfg _ t limited enough grace killed = (_, refl)

  -- A run with a time limit ends with a result, where the clock goes on by the sleep of each turn, no
  -- signal interrupts the wait for the worker, and the last `waitpid` returns; the fuel that the wait
  -- needs is enough.
  pub calibration_run-returns :
      (fuel : ℕ) (cfg : CalibrationConfig W) (t : IsTicking answers.waiting)
      → 0 < cfg.timeout_sec
      → 10 * cfg.timeout_sec < fuel
      → 20 < fuel
      → t.last < fuel
      → IsThere (calibration_run fuel strtod answers (some cfg))
  unfolding calibration_run
  calibration_run-returns fuel cfg t limited enough grace killed =
      run_checked-There fuel cfg (validate_calibration_config (some cfg)) t limited enough grace
        killed
