-- ===== src/Ipc.antt =====
-- Inter-process communication.
mod Tests
pub mod Tag
pub mod Message
pub mod State
