-- ===== src/Policy/State.antt =====
-- The pressure states and the state kept between evaluations (crates/policy-engine/src/state.rs),
-- with evidence and errors (explanation.rs, error.rs).
use nemor.Base.{ℕ, Bool, String, Option, none}
use nemor.Base.Integer.{ℤ}

pub data PressureState : Type 0 where
  normal watch pressure critical emergency stabilizing : PressureState

-- The derived order follows the order of the variants.
unfoldable pub rank : PressureState → ℕ
rank PressureState.normal = 0
rank PressureState.watch = 1
rank PressureState.pressure = 2
rank PressureState.critical = 3
rank PressureState.emergency = 4
rank PressureState.stabilizing = 5

pub record PersistentState : Type 0 where
  pub current : PressureState
  pub previous : Option PressureState
  pub entered_at_ns : ℤ
  pub candidate : Option PressureState
  pub candidate_since_ns : Option ℤ
  pub last_transition_ns : Option ℤ
  pub transition_reason : String

unfoldable pub conservative : ℤ → PersistentState
conservative timestamp_ns = record {
  current = PressureState.watch;
  previous = none;
  entered_at_ns = timestamp_ns;
  candidate = none;
  candidate_since_ns = none;
  last_transition_ns = none;
  transition_reason = "restart_without_continuity";
}

pub record PolicyEvidence (F : Type 0) : Type 0 where
  pub signal : String
  pub value : Option F
  pub threshold : Option F
  pub relation : String
  pub available : Bool

pub record CandidateRejection : Type 0 where
  pub candidate : PressureState
  pub reason : String

pub data PolicyError : Type 0 where
  invalid_input : (field message : String) → PolicyError
  time_regression : PolicyError
  serialization : String → PolicyError
