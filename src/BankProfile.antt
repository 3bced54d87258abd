-- ===== src/BankProfile.antt =====
-- bank_profile.h and bank_profile.c: how many of a process's pages lie in which bank class.
pub mod Profile
pub mod Sums
pub mod Overlap
pub mod Histogram
pub mod Merge
mod Tests
pub mod Sampling
pub mod Accounting
pub mod Build
