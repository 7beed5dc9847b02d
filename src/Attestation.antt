-- ===== src/Attestation.antt =====
-- Runtime challenges and statements of src/kratos_guard/core/standalone.py.
pub mod Records
pub mod Verify
pub mod Authentic
pub mod Passing
pub mod Replay
pub mod Issue
pub mod Roundtrip
