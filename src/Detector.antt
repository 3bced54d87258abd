-- ===== src/Detector.antt =====
-- interference_detector.h and interference_detector.c: one interval of the detector.
pub mod Types
pub mod Collect
pub mod Detect
pub mod Found
pub mod Examination
pub mod Output
pub mod Handover
mod Tests
