-- ===== src/DramMapping.antt =====
-- dram_mapping.h and dram_mapping.c: the bank class of a physical address.
pub mod Bits
pub mod Mapping
pub mod Classes
pub mod Install
mod Tests
