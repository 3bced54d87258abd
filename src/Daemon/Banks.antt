-- ===== src/Daemon/Banks.antt =====
-- `init_dram_bank_mapping` of protected_daemon.c: the calibration, and the mapping that comes of it.
use cgroup_research.Prelude.{ℕ, Bool, true, false, Option, none, some, if◌then◌else◌, codes}
use cgroup_research.Prelude.Word.{Text}
use cgroup_research.Prelude.Double.{Double}
use cgroup_research.DramMapping.Mapping.{MappingRc, DramMapping, init_from_calibration}
use cgroup_research.Calibration.Masks.{is_success}
use cgroup_research.Calibration.Result.{Calibrated}
use cgroup_research.Calibration.Run.{CalibrationConfig, RunAnswers, RunOutcome, calibration_run}

-- `enum daemon_state`
pub data DaemonState : Type 0 where
  starting config_ready calibrating bank_ready bpf_ready running failed : DaemonState

-- `struct daemon_context`
pub record DaemonContext (W : Type 0) : Type 0 where
  pub state : DaemonState
  pub calibration : Calibrated W
  pub dram_mapping : DramMapping
  pub bank_mapping_ready : Bool

module _ {W : Type 0} ⦃d : Double W⦄ where
  abbrev pub bank_config : CalibrationConfig W
  bank_config = record {
    worker_path = some (codes "scripts/kk_calibrate.py");
    kk_main_path = some (codes "../Knock-Knock/main");
    result_path = some (codes "/run/protected-daemon/dram-map.json");
    work_dir = some (codes "/run/protected-daemon/kk-calibration");
    log_path = some (codes "/run/protected-daemon/calibration.log");
    runs = 3;
    memory_percent = d.decimal 25 0;
    measurements = 500;
    timing_rounds = 50;
    timeout_sec = 1800;
    keep_csv = true;
  }

  -- From the mapping on; `true` is the return of 0, and `false` that of -1.
  unfoldable pub finish_mapping : MappingRc × DramMapping → DaemonContext W → Bool × DaemonContext W
  finish_mapping (MappingRc.ok, mapping) ctx = (
    true,
    record ctx {
      dram_mapping = mapping;
      bank_mapping_ready = true;
      state = DaemonState.bank_ready;
    },
  )
  finish_mapping (rc, mapping) ctx =
      (false, record ctx { dram_mapping = mapping; state = DaemonState.failed })

  -- From the calibration on; none is a calibration whose wait had too little fuel.
  unfoldable pub after_calibration :
      Option (RunOutcome W) → DaemonContext W → Option (Bool × DaemonContext W)
  unfolding finish_mapping
  after_calibration none ctx = none
  after_calibration (some o) ctx =
      let ctx' = record ctx { calibration = o.out } in
      if is_success o.rc
      then some (finish_mapping (init_from_calibration o.out.result) ctx')
      else some (false, record ctx' { state = DaemonState.failed })

  -- The context pointer is no null pointer.
  unfoldable pub init_dram_bank_mapping :
      ℕ → (Text → Option (W × ℕ)) → RunAnswers → DaemonContext W → Option (Bool × DaemonContext W)
  unfolding after_calibration
  init_dram_bank_mapping fuel strtod answers ctx =
      after_calibration (calibration_run fuel strtod answers (some bank_config))
        (record ctx { state = DaemonState.calibrating; bank_mapping_ready = false })
