-- ===== src/AddrTranslate.antt =====
-- addr_translate.c: virtual addresses of a process through /proc/[pid]/pagemap.
pub mod Pagemap
pub mod Words
pub mod Exact
pub mod Descriptors
pub mod Translate
mod Tests
