-- ===== src/Mirror.antt =====
-- service.go: the mirror service.
pub mod State
pub mod Messages
pub mod Transfers
pub mod Replay
pub mod Rules
pub mod Ends
pub mod Overflows
pub mod Service
pub mod Attempts
pub mod Samples
