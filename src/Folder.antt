-- ===== src/Folder.antt =====
-- Folder snapshots of src/kratos_guard/core/standalone.py.
pub mod Compare
pub mod Drift
pub mod Snapshot
pub mod Limits
