-- ===== src/Tiering.antt =====
-- Tiering between compressed memory and storage (crates/tiering).
pub mod Boot
pub mod Topology
pub mod Swapfile
pub mod Backend
pub mod Inventory
pub mod Metrics
pub mod Plan
pub mod BootPlan
