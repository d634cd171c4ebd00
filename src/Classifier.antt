-- ===== src/Classifier.antt =====
-- The crate `classifier`: its data (Model), the stabilizer (Stabilize), the rules of the workload
-- (Signals, Rules, Workload) and the classifier that joins them (Pipeline).
pub mod Model
pub mod Stabilize
pub mod Signals
pub mod Rules
pub mod Workload
pub mod Pipeline
