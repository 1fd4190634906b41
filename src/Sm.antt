-- ===== src/Sm.antt =====
-- Session management of class `Rpc`: peer/erpc/sm_types.h and the session handlers of
-- peer/erpc/rpc_impl.
pub mod Types
pub mod State
pub mod Api
pub mod Handlers
pub mod Entries
pub mod Again
pub mod Calls
pub mod Linked
mod Tests
