-- ===== src/Policy/Planner.antt =====
-- The actions of each pressure state (crates/policy-engine/src/planner.rs, action.rs).
pub mod Safety
pub mod Outcome
use nemor.Base.{
  ℕ, Bool, true, false, not, ◌||◌, String, ◌+++◌, Option, none, some, List, [], ◌∷◌, ◌++◌, ltb,
  is_some_and, if◌then◌else◌,
}
use nemor.Common.Config.{CgroupsConfig}
use nemor.Actuator.Types.{CgroupPlan, PlanInput, mutation_ready}
use nemor.Actuator.Plan
use nemor.Policy.State.{PressureState}
use nemor.Policy.Features.{PolicyInput}
use PressureState.{normal, watch, pressure, critical, emergency, stabilizing}

pub data ZramProfileIntent : Type 0 where
  safe gaming capacity : ZramProfileIntent

pub data MemoryBackendIntent : Type 0 where
  zram zswap_nvme : MemoryBackendIntent

pub data ActionKind : Type 0 where
  no_action prepare_foreground_protection protect_foreground apply_background_soft_limit
        rollback_cgroup_measures :
      ActionKind
  select_zram_profile : ZramProfileIntent → ActionKind
  select_memory_backend : MemoryBackendIntent → ActionKind

pub record PlannedAction : Type 0 where
  pub kind : ActionKind
  pub reason : String
  pub mutating : Bool
  pub actuator_plan : Option CgroupPlan

pub record RejectedAction : Type 0 where
  pub requested : String
  pub reason_code : String
  pub explanation : String

pub record ActionPlan : Type 0 where
  pub planned : List PlannedAction
  pub rejected : List RejectedAction

-- The derived `Debug` of the three enums, as `format!("{:?}")` prints it.
profile_text : ZramProfileIntent → String
profile_text safe = "Safe"
profile_text gaming = "Gaming"
profile_text capacity = "Capacity"

backend_text : MemoryBackendIntent → String
backend_text zram = "Zram"
backend_text zswap_nvme = "ZswapNvme"

unfoldable pub kind_text : ActionKind → String
unfolding profile_text backend_text
kind_text no_action = "NoAction"
kind_text prepare_foreground_protection = "PrepareForegroundProtection"
kind_text protect_foreground = "ProtectForeground"
kind_text apply_background_soft_limit = "ApplyBackgroundSoftLimit"
kind_text rollback_cgroup_measures = "RollbackCgroupMeasures"
kind_text (select_zram_profile p) = "SelectZramProfile { profile: " +++ (profile_text p +++ " }")
kind_text (select_memory_backend b) =
    "SelectMemoryBackend { backend: " +++ (backend_text b +++ " }")

unfoldable pub action : ActionKind → String → Bool → PlannedAction
action kind reason mutating = record {
  kind = kind;
  reason = reason;
  mutating = mutating;
  actuator_plan = none;
}

unfoldable pub zram_action : ZramProfileIntent → String → PlannedAction
unfolding action
zram_action profile reason = action (select_zram_profile profile) reason false

unfoldable pub tiering_action : MemoryBackendIntent → String → PlannedAction
unfolding action
tiering_action backend reason = action (select_memory_backend backend) reason false

unfoldable pub rejection : String → PlannedAction → RejectedAction
rejection code item = record {
  requested = kind_text item.kind;
  reason_code = code;
  explanation = "mutation stopped before the actuator apply boundary";
}

-- The loop over the items taken out of `planned`: a mutating one moves to the rejected ones.
unfoldable pub reject_each : String → List PlannedAction → ActionPlan → ActionPlan
unfolding rejection
reject_each code [] plan = plan
reject_each code (item ∷ items) plan = reject_each code items (
    if item.mutating
    then record plan { rejected = plan.rejected ++ (rejection code item ∷ []) }
    else record plan { planned = plan.planned ++ (item ∷ []) })

unfoldable pub reject_mutations : String → ActionPlan → ActionPlan
reject_mutations code plan = reject_each code plan.planned (record plan { planned = [] })

unfoldable pub is_pressure : PressureState → Bool
is_pressure pressure = true
is_pressure _ = false

unfoldable pub unknown_rejection : RejectedAction
unknown_rejection = record {
  requested = "target_unknown_processes";
  reason_code = "unknown_do_not_touch";
  explanation = "unknown processes are never background targets";
}

module _ {F : Type 0} where
  unfoldable pub capabilities_ready : PolicyInput F → Bool
  capabilities_ready i = is_some_and i.cgroup_capabilities mutation_ready

  unfoldable pub severe_actions : PressureState → PolicyInput F → List PlannedAction
  unfolding is_pressure action zram_action tiering_action
  severe_actions state i =
      action protect_foreground "preserve_confirmed_foreground_and_protected_workloads" true
      ∷ zram_action (if i.gaming then gaming else if is_pressure state then capacity else safe) (
          if is_pressure state
          then "evaluate_capacity_without_bypassing_zram_guards"
          else "critical_states_block_zram_reinitialization")
      ∷ tiering_action (if i.gaming || not (is_pressure state) then zram else zswap_nvme)
          "tiering_intent_requires_backend_safety_validation"
      ∷ action apply_background_soft_limit "limit_only_explicitly_allow_listed_background_workloads"
          true
      ∷ []

  -- The chain of guards behind the actions of a severe state.
  unfoldable pub guard_severe : PolicyInput F → Bool → ActionPlan → ActionPlan
  unfolding capabilities_ready
  guard_severe i observe plan =
      if ltb 0 i.recent_safety_events
      then reject_mutations "recent_cgroup_safety_event" plan
      else if not (capabilities_ready i)
      then reject_mutations "cgroup_capability_unavailable" plan
      else if observe
      then reject_mutations "observe_mode" plan
      else if not i.actuator_available
      then reject_mutations "actuator_unavailable" plan
      else plan

  unfoldable pub guard_stabilizing : PolicyInput F → Bool → ActionPlan → ActionPlan
  guard_stabilizing i observe plan =
      if ltb 0 i.recent_safety_events
      then reject_mutations "recent_cgroup_safety_event" plan
      else if observe
      then reject_mutations "observe_mode" plan
      else plan

  unfoldable pub severe_plan : PressureState → PolicyInput F → Bool → ActionPlan
  unfolding severe_actions
  severe_plan state i observe =
      guard_severe i observe (record { planned = severe_actions state i; rejected = [] })

  unfoldable pub state_plan : PressureState → PolicyInput F → Bool → ActionPlan
  unfolding severe_plan action zram_action tiering_action
  state_plan normal i observe = record {
    planned =
        action no_action "system_stable" false
        ∷ zram_action safe "preserve_current_zram"
        ∷ tiering_action zram "no_tiering_benchmark_evidence_preserves_zram"
        ∷ [];
    rejected = [];
  }
  state_plan watch i observe = record {
    planned =
        action prepare_foreground_protection "early_pressure_signals" false
        ∷ zram_action (if i.gaming then gaming else safe) "analyze_zram_without_risky_change"
        ∷ tiering_action zram "watch_state_preserves_current_backend"
        ∷ [];
    rejected = [];
  }
  state_plan pressure i observe = severe_plan pressure i observe
  state_plan critical i observe = severe_plan critical i observe
  state_plan emergency i observe = severe_plan emergency i observe
  state_plan stabilizing i observe = guard_stabilizing i observe (record {
    planned =
        action rollback_cgroup_measures "conservative_recovery_after_pressure" true
        ∷ zram_action safe "hold_zram_configuration_during_stabilization"
        ∷ tiering_action zram "stabilizing_preserves_low_write_backend"
        ∷ [];
    rejected = [];
  })

  unfoldable pub plan_actions : PressureState → PolicyInput F → Bool → ActionPlan
  plan_actions state i observe =
      let plan = state_plan state i observe in
      if ltb 0 i.unknown_processes
      then record plan { rejected = plan.rejected ++ (unknown_rejection ∷ []) }
      else plan

  unfoldable pub validate_cgroup_plan : PlanInput F → CgroupsConfig → String → Option CgroupPlan
  validate_cgroup_plan input config mode = Plan.plan input config mode

unfoldable pub reject_unsupported : String → RejectedAction
reject_unsupported name = record {
  requested = name;
  reason_code = "unsupported_action";
  explanation = "action is outside the Phase 4 allow-list";
}
