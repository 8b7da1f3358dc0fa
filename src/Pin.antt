-- ===== src/Pin.antt =====
-- The ClientPIN subsystem, src/pin of the repository.
pub mod State
pub mod Equal
pub mod Retry
pub mod Token
pub mod Plaintext
pub mod Lifecycle
mod Tests
