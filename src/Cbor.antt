-- ===== src/Cbor.antt =====
-- zerofido_cbor.c: the strict CBOR subset of CTAP2, written and read.
pub mod Utf8
pub mod Encode
pub mod Decode
pub mod Head
pub mod RoundTrip
pub mod Item
pub mod Skip
mod Tests
