-- ===== src/Ledger.antt =====
-- The evidence ledger of src/kratos_guard/core/standalone.py.
pub mod Verify
pub mod Chain
pub mod Passing
pub mod Tampering
pub mod Append
pub mod Lock
pub mod Existing
pub mod Locking
pub mod Extending
pub mod Making
pub mod Appending
pub mod Carrying
pub mod Checkpoint
pub mod Linking
