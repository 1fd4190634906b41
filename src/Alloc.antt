-- ===== src/Alloc.antt =====
-- The hugepage allocator of peer/erpc/util.
pub mod Huge
pub mod Classes
pub mod Cover
pub mod Full
pub mod Steps
mod Tests
