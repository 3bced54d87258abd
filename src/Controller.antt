-- ===== src/Controller.antt =====
-- throttle_controller.h and throttle_controller.c: which processes are throttled, and for how long.
pub mod Types
pub mod Config
pub mod Candidates
pub mod Record
pub mod Apply
pub mod Lookup
pub mod Elapsed
pub mod Transitions
pub mod Room
pub mod Pairs
pub mod Loops
pub mod Cases
pub mod Invariant
pub mod Membership
pub mod Release
pub mod Start
mod Tests
pub mod Atomic
pub mod Counted
pub mod Counting
pub mod Persistence
