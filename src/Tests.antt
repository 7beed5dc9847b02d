-- ===== src/Tests.antt =====
-- Runs at concrete inputs, over an interpretation of the primitives that evaluates.
pub mod Toy
pub mod Signing
pub mod Ledger
pub mod Appending
pub mod Folder
pub mod Attestation
pub mod Bundle
pub mod Gate
pub mod Configuration
pub mod Monitor
pub mod Running
pub mod Initialising
pub mod Inspection
pub mod Transfer
pub mod Sealed
