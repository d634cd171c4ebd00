-- ===== src/Common.antt =====
-- The crate `common`: the configuration records (Config) and their validation (Validate).
pub mod Config
pub mod Validate
