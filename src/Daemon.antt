-- ===== src/Daemon.antt =====
-- policy.c and protected_daemon.c: which processes are protected, and the handling of process events.
pub mod Policy
pub mod Banks
pub mod Readiness
pub mod Events
pub mod Asked
pub mod Spec
pub mod Handling
pub mod Shield
pub mod Persistence
mod Tests
