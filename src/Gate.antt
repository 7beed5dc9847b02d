-- ===== src/Gate.antt =====
-- The evidence gate of src/kratos_guard/core/authority_gate.py.
pub mod Qualified
pub mod Boundary
