-- ===== src/Signing.antt =====
-- src/kratos_guard/core/signing.py: the trust directory, the key store, and what they promise.
pub mod Trust
pub mod Store
pub mod Lifecycle
pub mod Signatures
pub mod Growth
pub mod Permanence
pub mod Standing
pub mod Rotation
pub mod Succession
