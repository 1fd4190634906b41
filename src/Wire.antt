-- ===== src/Wire.antt =====
-- The wire format of the RPC layer: packet headers and message sizes.
pub mod Header
pub mod Sizes
mod Tests
