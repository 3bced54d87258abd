-- ===== src/Cgroup.antt =====
-- cgroup.h and cgroup.c: the groups, and what the rest of the daemon asks of the cgroup tree.
pub mod Group
pub mod Interface
pub mod Decimal
pub mod Control
pub mod Tree
mod Tests
