-- ===== src/Core.antt =====
-- The compute side of core/: the coroutine scheduler and the RDMA memory allocators.
pub mod Scheduler
pub mod Poll
pub mod Verbs
pub mod Ring
pub mod Memory
mod Tests
