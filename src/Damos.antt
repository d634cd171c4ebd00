-- ===== src/Damos.antt =====
-- The crate `damos`: data (Types), who may be reclaimed (Eligibility), where (Fence), how much
-- (Limits), what was observed (Residency, Refault), and the recovery of a session (Recovery).
pub mod Types
pub mod Eligibility
pub mod Fence
pub mod Limits
pub mod Residency
pub mod Refault
pub mod Recovery
