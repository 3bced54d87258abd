-- ===== src/ProcessTable.antt =====
-- process.h and process.c: the table of processes, with open addressing and tombstones.
pub mod Table
pub mod Search
pub mod Claims
pub mod Writes
pub mod Entries
pub mod Refine
pub mod Forks
pub mod Removal
pub mod Snapshot
