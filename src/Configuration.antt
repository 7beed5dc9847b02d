-- ===== src/Configuration.antt =====
-- The configuration of the standalone Guard (src/kratos_guard/core/operations.py).
pub mod Folders
pub mod Initialise
pub mod Initialising
pub mod WellFormed
pub mod Removing
pub mod Registering
