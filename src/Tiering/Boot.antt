-- ===== src/Tiering/Boot.antt =====
-- The validation of a boot configuration, version 6
-- (crates/tiering/src/boot_validation_v6.rs).
pub mod Types
pub mod Stages
pub mod Observations
pub mod Equality
pub mod Ledger
pub mod Interface
pub mod Lifecycle
pub mod Operations
pub mod Apply
pub mod Cleanup
pub mod PostBoot
pub mod Initialize
pub mod Kept
pub mod Trace
pub mod Evidence
pub mod Manifest
