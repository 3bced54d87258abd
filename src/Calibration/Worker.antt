-- ===== src/Calibration/Worker.antt =====
-- calibration.c: the wait for the worker, and its end by signals.
use cgroup_research.Prelude.{
  ℕ, zero, suc, ◌+◌, ◌*◌, ◌/◌, Bool, true, false, Option, none, some, List, [], ◌∷◌, ltb, leb,
  if◌then◌else◌,
}
use cgroup_research.Calibration.Masks.{CalibrationRc}

-- The status of a child that `waitpid` reaps: the code of its exit, or the signal that ended it.
pub data ChildStatus : Type 0 where
  exited : ℕ → ChildStatus
  signaled : ℕ → ChildStatus
  neither : ChildStatus

-- What `waitpid` with WNOHANG gives: the status, a child that still runs, EINTR, or another error.
pub data Polled : Type 0 where
  reaped : ChildStatus → Polled
  running interrupted broken : Polled

-- What the system answers in one turn of a loop: `waitpid`, and the clock as its seconds and
-- nanoseconds, none where it fails.
pub record Turn : Type 0 where
  pub polled : Polled
  pub clock : Option (ℕ × ℕ)

-- The signals that go to the group of the worker.
pub data Signal : Type 0 where
  term kill : Signal

-- `none` is -1.
abbrev pub monotonic_ms : Option (ℕ × ℕ) → Option ℕ
monotonic_ms none = none
monotonic_ms (some (sec, nsec)) = some (sec * 1000 + nsec / 1000000)

-- `monotonic_ms() >= deadline`, where the deadline is there; -1 is below every deadline.
abbrev pub reached : Option ℕ → Option ℕ → Bool
reached none now = false
reached (some deadline) none = false
reached (some deadline) (some now) = leb deadline now

abbrev pub later : ℕ → Option ℕ → Option ℕ
later ms none = none
later ms (some t) = some (t + ms)

-- What a turn of the loop of terminate_process_group does, where `poll` is what follows the test of
-- `waitpid`: whether SIGKILL follows.
abbrev pub end_turn : Polled → Option Bool → Option Bool
end_turn (Polled.reaped status) poll = some false
end_turn Polled.broken poll = some true
end_turn Polled.running poll = poll
end_turn Polled.interrupted poll = poll

-- The loop: `answers i` is what turn i sees; without fuel the result is none.
unfoldable pub await_end : ℕ → Option ℕ → (ℕ → Turn) → ℕ → Option Bool
await_end zero deadline answers i = none
await_end (suc fuel) deadline answers i =
    let next = await_end fuel deadline answers (suc i) in
    end_turn (answers i).polled
      (if reached deadline (monotonic_ms (answers i).clock) then some true else next)

-- What `waitpid` without WNOHANG does: it returns the pid, it fails with EINTR or with another error, or
-- it never returns.
pub data Blocking : Type 0 where
  returned interrupted failed hung : Blocking

-- What a call of it makes of the loop, where `next` is the next call: whether the loop ends.
abbrev pub reap_turn : Blocking → Bool → Bool
reap_turn Blocking.returned next = true
reap_turn Blocking.failed next = true
reap_turn Blocking.interrupted next = next
reap_turn Blocking.hung next = false

-- The loop after SIGKILL: `reaps i` is what its call i does. Without fuel it does not end.
unfoldable pub reap : ℕ → (ℕ → Blocking) → ℕ → Bool
reap zero reaps i = false
reap (suc fuel) reaps i = let next = reap fuel reaps (suc i) in reap_turn (reaps i) next

-- The signals that are sent, where `ends` is whether the loop after SIGKILL ends.
abbrev pub signals_of : Option Bool → Bool → Option (List Signal)
signals_of none ends = none
signals_of (some false) ends = some (Signal.term ∷ [])
signals_of (some true) ends = if ends then some (Signal.term ∷ Signal.kill ∷ []) else none

-- The signals that are sent; none is that it does not return. `clock` is the reading before the first
-- loop, and the grace is 2000 ms.
unfoldable pub terminate_process_group :
    ℕ → Option (ℕ × ℕ) → (ℕ → Turn) → (ℕ → Blocking) → Option (List Signal)
unfolding await_end reap
terminate_process_group fuel clock answers reaps =
    signals_of (await_end fuel (later 2000 (monotonic_ms clock)) answers 0) (reap fuel reaps 0)

-- What a wait gives: the return code, the exit code if it is written, and the signals that were sent.
pub record Waited : Type 0 where
  pub rc : CalibrationRc
  pub exit_code : Option ℕ
  pub signals : List Signal

abbrev pub gives : CalibrationRc → Option ℕ → Option Waited
gives rc code = some (record { rc = rc; exit_code = code; signals = [] })

abbrev pub reaped_with : ChildStatus → Option Waited
reaped_with (ChildStatus.exited code) = gives CalibrationRc.ok (some code)
reaped_with (ChildStatus.signaled signal) = gives CalibrationRc.ok (some (128 + signal))
reaped_with ChildStatus.neither = gives CalibrationRc.wait_failed none

-- The return behind terminate_process_group.
abbrev pub ended_with : CalibrationRc → Option (List Signal) → Option Waited
ended_with rc none = none
ended_with rc (some signals) = some (record { rc = rc; exit_code = none; signals = signals })

-- What is done with the clock while the child still runs, where `ending` is terminate_process_group and
-- `next` the next turn.
abbrev pub timed : Option (ℕ × ℕ) → Option ℕ → Option (List Signal) → Option Waited → Option Waited
timed none now ending next = next
timed (some limit) none ending next = ended_with CalibrationRc.wait_failed ending
timed (some (start_ms, timeout_ms)) (some now_ms) ending next =
    if leb (start_ms + timeout_ms) now_ms then ended_with CalibrationRc.timeout ending else next

-- What a turn of the loop of wait_child does, where `next` is the next turn, and `clocked` what follows
-- for a child that still runs.
abbrev pub child_turn : Polled → Option Waited → Option Waited → Option Waited
child_turn (Polled.reaped status) next clocked = reaped_with status
child_turn Polled.broken next clocked = gives CalibrationRc.wait_failed none
child_turn Polled.interrupted next clocked = next
child_turn Polled.running next clocked = clocked

-- The loop: `limit` is the start and the time that is given, none without a limit.
unfoldable pub await_child :
    ℕ → Option (ℕ × ℕ) → Option (List Signal) → (ℕ → Turn) → ℕ → Option Waited
await_child zero limit ending answers i = none
await_child (suc fuel) limit ending answers i =
    let next = await_child fuel limit ending answers (suc i) in
    child_turn (answers i).polled next (timed limit (monotonic_ms (answers i).clock) ending next)

abbrev pub await_from : ℕ → ℕ → Option ℕ → Option (List Signal) → (ℕ → Turn) → Option Waited
await_from fuel timeout_sec none ending answers = gives CalibrationRc.wait_failed none
await_from fuel timeout_sec (some start_ms) ending answers =
    await_child fuel (some (start_ms, timeout_sec * 1000)) ending answers 0

-- What the system answers to a wait: the clock before the loop, the turns of the loop, the clock and the
-- turns of the loop that ends the worker, and the calls of the loop after SIGKILL.
pub record Waiting : Type 0 where
  pub start : Option (ℕ × ℕ)
  pub turns : ℕ → Turn
  pub ending_start : Option (ℕ × ℕ)
  pub ending_turns : ℕ → Turn
  pub reaps : ℕ → Blocking

-- The pid is positive. Each loop has `fuel`; none is that it runs out, or that the last `waitpid` never
-- returns.
unfoldable pub wait_child : ℕ → Waiting → ℕ → Option Waited
unfolding await_child terminate_process_group
wait_child fuel w timeout_sec =
    let ending = terminate_process_group fuel w.ending_start w.ending_turns w.reaps in
    if ltb 0 timeout_sec
    then await_from fuel timeout_sec (monotonic_ms w.start) ending w.turns
    else await_child fuel none ending w.turns 0
