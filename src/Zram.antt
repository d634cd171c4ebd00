-- ===== src/Zram.antt =====
-- The crate `zram`: its data (Types), the backend as an interface (Interface), the metrics of a
-- device (Metrics), the plan of a profile (Ranking, Profile), and the transaction that replaces a
-- device (Transaction).
pub mod Types
pub mod Interface
pub mod Metrics
pub mod Ranking
pub mod Profile
pub mod Transaction
