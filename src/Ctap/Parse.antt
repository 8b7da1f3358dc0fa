-- ===== src/Ctap/Parse.antt =====
-- The request parsers of ctap/parse.
pub mod Parsed
pub mod Shared
pub mod Keys
pub mod Options
pub mod Descriptors
pub mod Extensions
pub mod MakeCredential
pub mod GetAssertion
pub mod Cose
