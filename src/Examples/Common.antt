-- ===== src/Examples/Common.antt =====
-- Sections that are accepted (crates/common).
