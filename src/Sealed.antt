-- ===== src/Sealed.antt =====
-- The sealed build: the attestation of a build, its signature (src/kratos_guard/core/signing.py), the
-- manifests of a candidate and the verdicts on it (src/kratos_guard/core/sealed_build.py).
pub mod Claims
pub mod Manifest
pub mod Candidate
pub mod Payload
pub mod Build
pub mod Attested
pub mod Signed
pub mod Resigned
