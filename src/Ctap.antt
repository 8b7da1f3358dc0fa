-- ===== src/Ctap.antt =====
-- The CTAP2 layer: its status codes, and parts of its parsers.
pub mod Status
pub mod Extensions
pub mod Parse
pub mod Queue
mod Tests
