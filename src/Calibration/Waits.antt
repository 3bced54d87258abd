-- ===== src/Calibration/Waits.antt =====
-- How the wait for the worker ends.
use cgroup_research.Prelude.{
  ℕ, zero, suc, ◌+◌, ◌*◌, ◌≤◌, ◌<◌, ◌≡◌, ◌≢◌, refl, ◌⊎◌, inl, inr, Bool, true, false, Option, none,
  some, List, [], ◌∷◌, ltb, leb, arith, Bool-cases,
}
use cgroup_research.Calibration.Masks.{CalibrationRc}
use cgroup_research.Calibration.Worker.{
  ChildStatus, Polled, Turn, Signal, monotonic_ms, end_turn, await_end, terminate_process_group,
  Blocking, reap, Waited, reaped_with, timed, child_turn, await_child, Waiting, wait_child,
  signals_of,
}

-- A value that is there, and of which something holds.
abbrev pub There : {A : Type 0} → (A → Type 0) → Option A → Type 0
There {A} P o = (a : A) × (o ≡ some a) × P a

end_turn-There :
    (p : Polled) {poll : Option Bool} → There (λ b. Unit) poll → There (λ b. Unit) (end_turn p poll)
end_turn-There (Polled.reaped status) h = (false, refl, tt)
end_turn-There Polled.broken h = (true, refl, tt)
end_turn-There Polled.running h = h
end_turn-There Polled.interrupted h = h

-- The clock of the turns goes on by at least 100 ms in each turn, from `start` on.
pub record Ticks (start : ℕ) (turns : ℕ → Turn) : Type 0 where
  pub now : ℕ → ℕ
  pub reads : (i : ℕ) → monotonic_ms (turns i).clock ≡ some (now i)
  pub goes_on : (i : ℕ) → start + 100 * i ≤ now i

-- With fuel for the turns of 100 ms up to the deadline, the loop ends.
await_end-There :
    (fuel start grace : ℕ) (turns : ℕ → Turn) (i : ℕ)
    → Ticks start turns
    → grace ≤ 100 * (fuel + i)
    → There (λ b. Unit) (await_end (suc fuel) (some (start + grace)) turns i)
unfolding await_end
await_end-There zero start grace turns i t enough =
    let goes_on = t.goes_on i in
    let over : leb (start + grace) (t.now i) ≡ true = ground arith in
    end_turn-There (turns i).polled (rw (t.reads i, over) (true, refl, tt))
await_end-There (suc fuel) start grace turns i t enough =
    let rest = await_end-There fuel start grace turns (suc i) t (omega arith) in
    end_turn-There (turns i).polled (elim (Bool-cases (leb (start + grace) (t.now i))) [
      | inl over ↦ rw (t.reads i, over) (true, refl, tt)
      | inr more ↦ rw (t.reads i, more) rest
    ])

-- The end of the worker: SIGTERM, and SIGKILL where the grace of 2000 ms does not suffice.
abbrev pub IsEnding : List Signal → Type 0
IsEnding signals = (signals ≡ Signal.term ∷ []) ⊎ (signals ≡ Signal.term ∷ Signal.kill ∷ [])

signals_of-There :
    (o : Option Bool) {ends : Bool}
    → ends ≡ true
    → There (λ b. Unit) o
    → There IsEnding (signals_of o ends)
signals_of-There o h (true, e, u) = rw (e, h) (_, refl, inr refl)
signals_of-There o h (false, e, u) = rw e (_, refl, inl refl)

-- A call of the loop after SIGKILL that ends it.
abbrev pub IsOver : Blocking → Type 0
IsOver b = (b ≡ Blocking.returned) ⊎ (b ≡ Blocking.failed)

-- The loop after SIGKILL gets to its call `last`, which ends it, where no earlier one hangs.
pub record Reaps (last : ℕ) (reaps : ℕ → Blocking) : Type 0 where
  pub over : IsOver (reaps last)
  pub interrupted : (i : ℕ) → i < last → reaps i ≡ Blocking.interrupted

reap-Reaps :
    (fuel left i last : ℕ) (reaps : ℕ → Blocking)
    → Reaps last reaps
    → i + left ≡ last
    → left < fuel
    → reap fuel reaps i ≡ true
unfolding reap
reap-Reaps zero left i last reaps r e l = absurd (omega arith)
reap-Reaps (suc fuel) zero i last reaps r e l =
    let here : i ≡ last = omega arith in
    rw here (elim r.over [ inl returned ↦ rw returned refl | inr failed ↦ rw failed refl ])
reap-Reaps (suc fuel) (suc left) i last reaps r e l =
    rw
      (
        r.interrupted i (omega arith),
        reap-Reaps fuel left (suc i) last reaps r (omega arith) (omega arith),
      )
      refl

pub terminate_process_group-There :
    (fuel start last : ℕ) (clock : Option (ℕ × ℕ)) (turns : ℕ → Turn) (reaps : ℕ → Blocking)
    → monotonic_ms clock ≡ some start
    → Ticks start turns
    → Reaps last reaps
    → 20 < fuel
    → last < fuel
    → There IsEnding (terminate_process_group fuel clock turns reaps)
unfolding terminate_process_group
terminate_process_group-There zero start last clock turns reaps c t r enough l =
    absurd (omega arith)
terminate_process_group-There (suc fuel) start last clock turns reaps c t r enough l = rw c (
    signals_of-There _ (reap-Reaps (suc fuel) last 0 last reaps r (omega arith) l)
      (await_end-There fuel start 2000 turns 0 t (omega arith)))

-- What a wait that ends reports: the child was reaped in some turn, with its exit code or 128 and its
-- signal; or it ran past the limit, and then it was ended; or the wait failed.
pub data Reported (start limit : ℕ) (turns : ℕ → Turn) : Waited → Type 0 where
  exited :
      (i code : ℕ)
      → (turns i).polled ≡ Polled.reaped (ChildStatus.exited code)
      → Reported start limit turns
          (record { rc = CalibrationRc.ok; exit_code = some code; signals = [] })
  signaled :
      (i signal : ℕ)
      → (turns i).polled ≡ Polled.reaped (ChildStatus.signaled signal)
      → Reported start limit turns
          (record { rc = CalibrationRc.ok; exit_code = some (128 + signal); signals = [] })
  wait_failed :
      Reported start limit turns
        (record { rc = CalibrationRc.wait_failed; exit_code = none; signals = [] })
  timed_out :
      (i now : ℕ) (signals : List Signal)
      → (turns i).polled ≡ Polled.running
      → monotonic_ms (turns i).clock ≡ some now
      → start + limit ≤ now
      → IsEnding signals
      → Reported start limit turns
          (record { rc = CalibrationRc.timeout; exit_code = none; signals = signals })

reaped_with-There :
    (start limit : ℕ) (turns : ℕ → Turn) (i : ℕ) (status : ChildStatus)
    → (turns i).polled ≡ Polled.reaped status
    → There (Reported start limit turns) (reaped_with status)
reaped_with-There start limit turns i (ChildStatus.exited code) e =
    (_, refl, Reported.exited i code e)
reaped_with-There start limit turns i (ChildStatus.signaled signal) e =
    (_, refl, Reported.signaled i signal e)
reaped_with-There start limit turns i ChildStatus.neither e = (_, refl, Reported.wait_failed)

child_turn-There :
    (start limit : ℕ) (turns : ℕ → Turn) (i : ℕ) (p : Polled) (next : Option Waited)
    {clocked : Option Waited}
    → (turns i).polled ≡ p
    → p ≢ Polled.interrupted
    → (p ≡ Polled.running → There (Reported start limit turns) clocked)
    → There (Reported start limit turns) (child_turn p next clocked)
child_turn-There start limit turns i (Polled.reaped status) next e n h =
    reaped_with-There start limit turns i status e
child_turn-There start limit turns i Polled.broken next e n h = (_, refl, Reported.wait_failed)
child_turn-There start limit turns i Polled.interrupted next e n h = absurd (n refl)
child_turn-There start limit turns i Polled.running next e n h = h refl

timed-There :
    (start limit : ℕ) (turns : ℕ → Turn) (i now : ℕ) {ending : Option (List Signal)}
    {next : Option Waited}
    → (turns i).polled ≡ Polled.running
    → monotonic_ms (turns i).clock ≡ some now
    → There IsEnding ending
    → ((now < start + limit) → There (Reported start limit turns) next)
    → There (Reported start limit turns) (timed (some (start, limit)) (some now) ending next)
timed-There start limit turns i now p c (signals, e, s) h =
    elim (Bool-cases (leb (start + limit) now)) [
      | inl over ↦ rw (over, e) (_, refl, Reported.timed_out i now signals p c (ground arith) s)
      | inr more ↦ rw more (h (ground arith))
    ]

await_child-There :
    (fuel start limit : ℕ) (turns : ℕ → Turn) (i : ℕ) {ending : Option (List Signal)}
    → Ticks start turns
    → ((j : ℕ) → (turns j).polled ≢ Polled.interrupted)
    → There IsEnding ending
    → limit ≤ 100 * (fuel + i)
    → There
        (Reported start limit turns)
        (await_child (suc fuel) (some (start, limit)) ending turns i)
unfolding await_child
await_child-There zero start limit turns i t n e enough =
    let goes_on = t.goes_on i in
    child_turn-There start limit turns i (turns i).polled none refl (n i) (λ p.
      rw (t.reads i)
        (timed-There start limit turns i (t.now i) p (t.reads i) e (λ l. absurd (omega arith))))
await_child-There (suc fuel) start limit turns i t n e enough =
    let rest = await_child-There fuel start limit turns (suc i) t n e (omega arith) in
    child_turn-There start limit turns i (turns i).polled _ refl (n i)
      (λ p. rw (t.reads i) (timed-There start limit turns i (t.now i) p (t.reads i) e (λ l. rest)))

-- What the system keeps to while the program waits: both clocks are read, and go on by the 100 ms that a
-- turn sleeps; no signal interrupts `waitpid` in the loop of wait_child; and in the loop after SIGKILL,
-- `waitpid` returns, after a number of calls that signals interrupt, `last`.
pub record IsTicking (w : Waiting) : Type 0 where
  pub start : ℕ
  pub start_read : monotonic_ms w.start ≡ some start
  pub ticks : Ticks start w.turns
  pub uninterrupted : (i : ℕ) → (w.turns i).polled ≢ Polled.interrupted
  pub ending_start : ℕ
  pub ending_start_read : monotonic_ms w.ending_start ≡ some ending_start
  pub ending_ticks : Ticks ending_start w.ending_turns
  pub last : ℕ
  pub reaped : Reaps last w.reaps

-- A wait with a time limit ends, where the clock is read and goes on by the sleep of each turn, no signal
-- interrupts `waitpid` while the program waits for the worker, and the `waitpid` that blocks after
-- SIGKILL returns in the end: ten turns for each second of the limit, twenty for the grace after SIGTERM,
-- and one for each call of the last `waitpid` are enough. It reports success only with the status of a child that was reaped, and a timeout only where the clock
-- has passed the limit; SIGTERM goes out exactly then, with SIGKILL after it or not.
pub wait_child-returns :
    (fuel : ℕ) (w : Waiting) (timeout_sec : ℕ) (t : IsTicking w)
    → 0 < timeout_sec
    → 10 * timeout_sec < fuel
    → 20 < fuel
    → t.last < fuel
    → (waited : Waited) × (wait_child fuel w timeout_sec ≡ some waited)
      × Reported t.start (timeout_sec * 1000) w.turns waited
unfolding wait_child
wait_child-returns zero w timeout_sec t some_time enough grace killed = absurd (omega arith)
wait_child-returns (suc fuel) w timeout_sec t some_time enough grace killed =
    let limited : ltb 0 timeout_sec ≡ true = ground arith in
    let ending =
      terminate_process_group-There (suc fuel) t.ending_start t.last w.ending_start w.ending_turns
        w.reaps t.ending_start_read t.ending_ticks t.reaped grace killed in
    rw (limited, t.start_read)
      (await_child-There fuel t.start (timeout_sec * 1000) w.turns 0 t.ticks t.uninterrupted ending
        (omega arith))
