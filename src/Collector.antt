-- ===== src/Collector.antt =====
-- The crate `collector`: the samples that the classifier reads (Samples).
pub mod Samples
pub mod System
