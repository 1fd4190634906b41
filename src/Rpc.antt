-- ===== src/Rpc.antt =====
-- Class `Rpc` of peer/erpc/rpc.h: its state, and the data path of peer/erpc/rpc_impl.
pub mod State
pub mod Tx
pub mod Buffers
pub mod Kick
pub mod Client
pub mod Response
pub mod Loss
pub mod Server
pub mod Reply
pub mod Credits
pub mod Open
pub mod EvLoop
mod Tests
pub mod Answer
pub mod Listed
