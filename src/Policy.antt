-- ===== src/Policy.antt =====
-- The crate `policy-engine`: data (State), input and counter rates (Features), the pressure state
-- machine (Transition), the closed set of actions (Planner), and the engine that joins them (Engine).
pub mod State
pub mod Features
pub mod Transition
pub mod Planner
pub mod Engine
