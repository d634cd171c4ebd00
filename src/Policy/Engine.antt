-- ===== src/Policy/Engine.antt =====
-- `PolicyEngine` (crates/policy-engine/src/policy.rs), and the limited history (history.rs).
pub mod Runs
pub mod Hysteresis
use nemor.Base.{ℕ, Bool, String, Option, none, some, List, [], ◌∷◌, min, take, Result, ok, err}
use nemor.Base.Integer.{ℤ, ltb_ℤ}
use nemor.Base.Float.{Float}
use nemor.Common.Config.{PressureConfig}
use nemor.Policy.State.{
  PressureState, PersistentState, conservative, PolicyEvidence, CandidateRejection, PolicyError,
  time_regression,
}
use nemor.Policy.Features.{PolicyInput, validate}
use nemor.Policy.Transition.{TransitionResult, transition}
use nemor.Policy.Planner.{PlannedAction, RejectedAction, plan_actions}

abbrev pub policy_name : String
policy_name = "nemor-policy-v1"

abbrev pub rule_version : String
rule_version = "pressure-rules-v1"

pub record PolicyDecision (F : Type 0) : Type 0 where
  pub timestamp_ns : ℤ
  pub current_state : PressureState
  pub previous_state : Option PressureState
  pub state_changed : Bool
  pub state_since_ns : ℤ
  pub candidate_state : Option PressureState
  pub policy_name : String
  pub rule_version : String
  pub input_features : PolicyInput F
  pub evidence : List (PolicyEvidence F)
  pub rejected_candidates : List CandidateRejection
  pub planned_actions : List PlannedAction
  pub rejected_actions : List RejectedAction
  pub expected_gain_bytes : Option ℕ
  pub expected_cost_score : Option F
  pub dry_run : Bool
  pub transition_reason : String

pub record PolicyEngine (F : Type 0) : Type 0 where
  pub config : PressureConfig F
  pub state : PersistentState

module _ {F : Type 0} where
  -- `PolicyEngine::new` and `from_state`.
  unfoldable pub new : PressureConfig F → ℤ → PolicyEngine F
  unfolding conservative
  new config timestamp_ns = record { config = config; state = conservative timestamp_ns }

  unfoldable pub from_state : PressureConfig F → PersistentState → PolicyEngine F
  from_state config state = record { config = config; state = state }

module _ {F : Type 0} (fl : Float F) where
  unfoldable pub decide : PolicyEngine F → PolicyInput F → Bool → PolicyEngine F × PolicyDecision F
  decide engine input observe =
      let t = transition fl engine.state input engine.config in
      let actions = plan_actions t.state.current input observe in
      (
        record engine { state = t.state },
        record {
          timestamp_ns = input.timestamp_ns;
          current_state = t.state.current;
          previous_state = t.state.previous;
          state_changed = t.changed;
          state_since_ns = t.state.entered_at_ns;
          candidate_state = t.state.candidate;
          policy_name = policy_name;
          rule_version = rule_version;
          input_features = input;
          evidence = t.evidence;
          rejected_candidates = t.rejected;
          planned_actions = actions.planned;
          rejected_actions = actions.rejected;
          expected_gain_bytes = none;
          expected_cost_score = none;
          dry_run = observe;
          transition_reason = t.state.transition_reason;
        },
      )

  -- `evaluate`: the engine afterwards, and the decision or the error.
  unfoldable pub evaluate :
      PolicyEngine F → PolicyInput F → Bool → PolicyEngine F × Result PolicyError (PolicyDecision F)
  evaluate engine input observe = elim (validate fl input) [
    | err e ↦ (engine, err e)
    | ok _ ↦ elim (ltb_ℤ input.timestamp_ns engine.state.entered_at_ns) [
      | Bool.true ↦ (engine, err time_regression)
      | Bool.false ↦ let (next, decision) = decide engine input observe in (next, ok decision)
    ]
  ]

  -- The engine after a sequence of inputs with their modes, the newest first.
  unfoldable pub run : PolicyEngine F → List (PolicyInput F × Bool) → PolicyEngine F
  run engine [] = engine
  run engine ((input, observe) ∷ older) = (evaluate (run engine older) input observe).0

pub record SafetyEvent : Type 0 where
  pub timestamp_ns : ℤ
  pub action_family : Option String
  pub event_type : String

pub record DecisionHistory (F : Type 0) : Type 0 where
  pub recent : List (PolicyDecision F)
  pub safety_events : List SafetyEvent

unfoldable pub limited : {F : Type 0} → DecisionHistory F → ℕ → DecisionHistory F
limited history limit = record {
  recent = take (min limit 100) history.recent;
  safety_events = take (min limit 100) history.safety_events;
}
