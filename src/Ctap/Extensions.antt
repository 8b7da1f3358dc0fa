-- ===== src/Ctap/Extensions.antt =====
-- ctap/extensions.
pub mod CredProtect
