-- ===== src/Inspection.antt =====
-- What the inspection of a target rests on: the read-only and output policies, the bootstrap verdict,
-- the loaded-client evidence, the link from source to build, the mutation witness and the redaction of
-- what is kept (src/kratos_guard/core and src/kratos_guard/reporting).
pub mod Policy
pub mod Output
pub mod Redaction
pub mod Redacted
pub mod Provenance
pub mod Linked
