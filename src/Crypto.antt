-- ===== src/Crypto.antt =====
-- The hash, the keyed hash and the signature encoding of src/crypto.
pub mod Standard
pub mod Sha256
pub mod Hmac
pub mod Hash
pub mod Der
mod Tests
