-- ===== src/CandidateFilter.antt =====
-- candidate_filter.c: which processes the detector looks at, and as what.
pub mod Filter
pub mod Kinds
mod Tests
