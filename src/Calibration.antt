-- ===== src/Calibration.antt =====
-- calibration.h and calibration.c: a worker is run under a time limit, and its result file is read.
pub mod Json
pub mod Masks
pub mod Result
pub mod Worker
pub mod Run
pub mod Waits
pub mod Scanned
pub mod Accepted
pub mod Taken
pub mod Runs
pub mod Returns
pub mod Strings
mod Tests
