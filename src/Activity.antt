-- ===== src/Activity.antt =====
-- proc_activity.c and activity_prefilter.c: how active a process is, and the most active ones.
pub mod Delta
pub mod Stat
pub mod Sampler
pub mod StatNumbers
pub mod StatLine
pub mod Sampled
pub mod Prefilter
pub mod Selection
pub mod Differences
mod Tests
