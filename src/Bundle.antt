-- ===== src/Bundle.antt =====
-- Evidence bundles of src/kratos_guard/core/operations.py.
pub mod Archive
pub mod Verify
pub mod Transfer
pub mod Importing
pub mod Exporting
pub mod Clear
pub mod Pinned
