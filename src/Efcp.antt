-- ===== src/Efcp.antt =====
-- The Error and Flow Control Protocol: src/DIF/EFCP, src/DIF/Delimiting, src/Common/SDU.* and the
-- default policies under policies/DIF/EFCP.
pub mod Sdu
pub mod Pdu
pub mod State
pub mod Reassembly
pub mod Output
pub mod Retransmit
pub mod Send
pub mod Transmit
pub mod Receive
pub mod Control
mod Examples
