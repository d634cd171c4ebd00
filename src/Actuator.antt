-- ===== src/Actuator.antt =====
-- The crate `actuator`: data (Types), the backend and the store as interfaces (Interface), the plan
-- of one assignment (Plan), its guarded application (Apply) and the store in memory (MemoryStore).
pub mod Types
pub mod Plan
pub mod Interface
pub mod Apply
pub mod MemoryStore
