-- ===== src/Multiplexer.antt =====
-- snitun/multiplexer/core.py: the multiplexer over one connection.
pub mod Frame
pub mod Addresses
pub mod State
pub mod Invariant
pub mod Handling
pub mod Version
pub mod Endpoint
pub mod Tasks
