-- ===== src/Ksm.antt =====
-- The controller of kernel same-page merging (crates/ksm).
pub mod Types
pub mod Counters
pub mod Smaps
pub mod Scope
pub mod BasePages
pub mod Eligibility
pub mod Protocol
pub mod Backend
pub mod Observation
pub mod Scanner
pub mod Controller
pub mod Capability
