-- ===== src/U2f.antt =====
-- The U2F requests that come in over a transport.
pub mod Apdu
mod Tests
