-- ===== src/Rmt.antt =====
-- The relaying and multiplexing task: src/DIF/RMT and the policies under policies/DIF/RMT.
pub mod Queue
pub mod Port
pub mod Relay
pub mod Monitor
mod Examples
