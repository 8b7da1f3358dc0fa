-- ===== src/Transport.antt =====
-- The CTAPHID transport over USB.
pub mod State
pub mod Frames
pub mod Cids
pub mod Assembly
pub mod Session
mod Tests
