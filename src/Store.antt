-- ===== src/Store.antt =====
-- The credential store: its index, and the signature counters on disk.
pub mod Types
pub mod Counter
pub mod Index
mod Tests
