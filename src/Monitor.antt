-- ===== src/Monitor.antt =====
-- The monitor of src/kratos_guard/core/operations.py.
pub mod Health
pub mod Running
pub mod Baseline
pub mod Run
pub mod Invariant
pub mod Persistence
pub mod Bracket
pub mod Growth
pub mod Verified
pub mod Finishing
pub mod Unlocking
pub mod Reporting
