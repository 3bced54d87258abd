-- ===== src/Daemon/Readiness.antt =====
-- When the daemon has a DRAM mapping to work with.
use mathlib.Core.Path.{subst}
use cgroup_research.Prelude.{
  ℕ, ◌-◌, ◌≤◌, ◌<◌, ◌≡◌, ◌≢◌, refl, sym, ap, inl, inr, Bool, true, false, Option, some, ◌++◌,
  length, length-append, take, arith,
}
use cgroup_research.Prelude.Word.{Text}
use cgroup_research.Prelude.Double.{Double}
use cgroup_research.DramMapping.Mapping.{
  MappingRc, DramMapping, CalibrationResult, is_ready, init_from_calibration,
}
use cgroup_research.DramMapping.Install.{IsAcceptable, Installed, init_from_calibration_lem}
use cgroup_research.Calibration.Masks.{CalibrationRc, is_success}
use cgroup_research.Calibration.Result.{Calibrated, zeros, load_result}
use cgroup_research.Calibration.Worker.{Waited, wait_child}
use cgroup_research.Calibration.Waits.{IsTicking}
use cgroup_research.Calibration.Accepted.{IsLoaded, Loaded, load_result-Loaded}
use cgroup_research.Calibration.Run.{Launch, RunAnswers, RunOutcome}
use cgroup_research.Calibration.Runs.{Ran, calibration_run-Ran}
use cgroup_research.Calibration.Returns.{IsThere, calibration_run-returns}
use cgroup_research.Daemon.Banks.{
  DaemonState, DaemonContext, bank_config, finish_mapping, after_calibration,
  init_dram_bank_mapping,
}

length-zeros : (n : ℕ) → length (zeros n) ≡ n
length-zeros ℕ.zero = refl
length-zeros (ℕ.suc n) = ap ℕ.suc (length-zeros n)

failed_is : (rc : CalibrationRc) → rc ≢ CalibrationRc.ok → is_success rc ≡ false
failed_is CalibrationRc.ok n = absurd (n refl)
failed_is _ n = refl

-- The number of masks stays in the array.
IsLoaded-bound : (r : CalibrationResult) → IsLoaded r → r.bank_mask_count ≤ length r.bank_masks
IsLoaded-bound r h =
    let few = h.are_masks.few in
    let whole = length-append h.masks (zeros (32 - length h.masks)) in
    let number : length r.bank_masks ≡ length (h.masks ++ zeros (32 - length h.masks)) =
      ap length h.stored in
    omega (arith, length-zeros (32 - length h.masks), h.counted)

module _ {W : Type 0} ⦃d : Double W⦄ where
  -- A context with a mapping that comes of a worker that exited with 0.
  pub record IsBankReady (fuel : ℕ) (answers : RunAnswers) (ctx : DaemonContext W) : Type 0 where
    pub state : ctx.state ≡ DaemonState.bank_ready
    pub marked : ctx.bank_mapping_ready ≡ true
    pub mapping_ready : is_ready ctx.dram_mapping ≡ true
    pub acceptable : IsAcceptable ctx.calibration.result
    pub masks :
        ctx.dram_mapping.masks
        ≡ take ctx.calibration.result.bank_mask_count ctx.calibration.result.bank_masks
    pub removed : answers.removed ≡ true
    pub launched : answers.launch ≡ Launch.launched
    pub exited :
        (w : Waited) × (wait_child fuel answers.waiting 1800 ≡ some w)
        × (w.rc ≡ CalibrationRc.ok)
        × (w.exit_code ≡ some 0)

  -- The ways of the initialisation.
  pub data Initialised (fuel : ℕ) (answers : RunAnswers) : Bool × DaemonContext W → Type 0 where
    broken :
        (ctx : DaemonContext W)
        → ctx.state ≡ DaemonState.failed
        → ctx.bank_mapping_ready ≡ false
        → Initialised fuel answers (false, ctx)
    ready :
        (ctx : DaemonContext W)
        → IsBankReady fuel answers ctx
        → Initialised fuel answers (true, ctx)

  finish_mapping-Initialised :
      (fuel : ℕ) (answers : RunAnswers) (ctx : DaemonContext W) (m : MappingRc × DramMapping)
      (w : Waited)
      → ctx.bank_mapping_ready ≡ false
      → Installed ctx.calibration.result m
      → answers.removed ≡ true
      → answers.launch ≡ Launch.launched
      → wait_child fuel answers.waiting 1800 ≡ some w
      → w.rc ≡ CalibrationRc.ok
      → w.exit_code ≡ some 0
      → Initialised fuel answers (finish_mapping m ctx)
  unfolding finish_mapping
  finish_mapping-Initialised fuel answers ctx (MappingRc.ok, mapping) w b (inl i) r l e o z =
      Initialised.ready _ (record {
        state = refl;
        marked = refl;
        mapping_ready = i.2;
        acceptable = i.1;
        masks = i.3;
        removed = r;
        launched = l;
        exited = (w, e, o, z);
      })
  finish_mapping-Initialised fuel answers ctx (MappingRc.ok, mapping) w b (inr i) r l e o z =
      absurd (i.0 refl)
  finish_mapping-Initialised fuel answers ctx (_, mapping) w b i r l e o z =
      Initialised.broken _ refl b

  Loaded-IsLoaded :
      (r : CalibrationRc × Calibrated W) → Loaded r → r.0 ≡ CalibrationRc.ok → IsLoaded r.1.result
  Loaded-IsLoaded r (Loaded.refused rc out n) e = absurd (n e)
  Loaded-IsLoaded r (Loaded.accepted out h) e = h

  -- What follows a calibration that gave a result.
  after_calibration-Initialised :
      (fuel : ℕ) (strtod : Text → Option (W × ℕ)) (answers : RunAnswers) (ctx : DaemonContext W)
      {ran : Option (RunOutcome W)}
      → ctx.bank_mapping_ready ≡ false
      → Ran fuel strtod answers (some bank_config) ran
      → IsThere ran
      → (r : Bool × DaemonContext W) × (after_calibration ran ctx ≡ some r)
        × Initialised fuel answers r
  unfolding after_calibration
  after_calibration-Initialised fuel strtod answers ctx b (Ran.stuck e) (o, h) = cc
  after_calibration-Initialised fuel strtod answers ctx b (Ran.unended e) (o, h) = cc
  after_calibration-Initialised fuel strtod answers ctx b (Ran.failed o n) there =
      rw (failed_is o.rc n) (_, refl, Initialised.broken _ refl b)
  after_calibration-Initialised fuel strtod answers ctx b (Ran.succeeded o s v r l e f same) there =
      let loaded =
        Loaded-IsLoaded (load_result strtod answers.file) (load_result-Loaded strtod answers.file)
          f in
      let is_loaded : IsLoaded o.out.result = subst IsLoaded (sym same) loaded in
      let installed =
        init_from_calibration_lem o.out.result (IsLoaded-bound o.out.result is_loaded) in
      let good : is_success o.rc ≡ true = ap is_success s in
      rw good (
        finish_mapping (init_from_calibration o.out.result) (record ctx { calibration = o.out }),
        refl,
        finish_mapping-Initialised fuel answers (record ctx { calibration = o.out })
            (init_from_calibration o.out.result) _ b installed r l e refl refl,
      )

  -- The initialisation of the DRAM mapping comes to an end, where the clock is read and goes on by the
  -- sleep of each turn, no signal interrupts `waitpid` while the program waits for the worker, and the
  -- `waitpid` that blocks after SIGKILL returns, at its call `t.last`: 18000 turns are the 1800 seconds
  -- of its limit. It leaves the context failed and without a
  -- mapping that is marked as ready; or the old result file was removed, the worker was launched, was
  -- reaped and exited with 0, and the context has a mapping that is ready and marked so, with the
  -- masks of an acceptable calibration result.
  pub init_dram_bank_mapping-Initialised :
      (fuel : ℕ) (strtod : Text → Option (W × ℕ)) (answers : RunAnswers) (ctx : DaemonContext W)
      (t : IsTicking answers.waiting)
      → 18000 < fuel
      → t.last < fuel
      → (r : Bool × DaemonContext W) × (init_dram_bank_mapping fuel strtod answers ctx ≡ some r)
        × Initialised fuel answers r
  unfolding init_dram_bank_mapping
  init_dram_bank_mapping-Initialised fuel strtod answers ctx t enough killed =
      after_calibration-Initialised fuel strtod answers
        (record ctx { state = DaemonState.calibrating; bank_mapping_ready = false }) refl
        (calibration_run-Ran fuel strtod answers (some bank_config))
        (calibration_run-returns strtod answers fuel bank_config t (omega arith) (omega arith)
          (omega arith) killed)
