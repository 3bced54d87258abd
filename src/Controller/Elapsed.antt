-- ===== src/Controller/Elapsed.antt =====
-- The controller's time arithmetic: `ms_to_ns` and `elapsed_at_least` of throttle_controller.c.
use cgroup_research.Prelude.{ℕ, ◌+◌, ◌*◌, ◌≤◌, ◌<◌, min, ◌≡◌, ◌↔◌, true, arith}
use cgroup_research.Prelude.Word.{word, uint64_max}
use cgroup_research.Controller.Config.{nsec_per_msec, ms_to_ns, elapsed_at_least}

-- The conversion saturates: it is the product, or UINT64_MAX where the product would not fit.
pub ms_to_ns_lem : (ms : ℕ) → ms_to_ns ms ≡ min (ms * nsec_per_msec) uint64_max
unfolding ms_to_ns
ms_to_ns_lem ms = ground arith

-- For 64-bit times and durations, a duration has passed exactly when the start and the
-- saturated duration in nanoseconds, added without wrap-around, are at most the present: a start in
-- the future has not passed, and neither the subtraction nor the conversion wraps.
pub elapsed_at_least_iff :
    (now start ms : ℕ)
    → now < word
    → start < word
    → (elapsed_at_least now start ms ≡ true) ↔ (start + min (ms * nsec_per_msec) uint64_max ≤ now)
unfolding elapsed_at_least
elapsed_at_least_iff now start ms hn hs = ground (arith, ms_to_ns_lem ms)
