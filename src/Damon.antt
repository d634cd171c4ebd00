-- ===== src/Damon.antt =====
-- The crate `damon`: address ranges (Ranges).
pub mod Ranges
