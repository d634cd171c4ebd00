-- ===== src/Examples/Policy.antt =====
-- A machine that comes under memory pressure (crates/policy-engine). Floats are whole numbers.
use nemor.Base.{
  ℕ, ◌+◌, ◌≤◌, ◌≡◌, ◌↔◌, refl, ◌⊎◌, Bool, true, false, none, some, List, [], ◌∷◌, arith, err,
}
use nemor.Base.Integer.{pos}
use nemor.Base.Float.{whole, whole-IsOrdered}
use nemor.Common.Config.{PressureConfig}
use nemor.Classifier.Model.{ForegroundState}
use nemor.Actuator.Types.{CgroupCapabilities}
use nemor.Policy.State.{PressureState, rank, time_regression, conservative}
use nemor.Policy.Features.{PolicyInput, CounterSample, RateTracker, validate, update, no_rates}
use nemor.Policy.Transition.{target, transition, is_immediate}
use nemor.Policy.Transition.Edges.{◌⟶◌, Severe, at_pressure}
use nemor.Policy.Transition.Severity.{rank-target_mono}
use nemor.Policy.Planner.{ActionPlan, plan_actions}
use nemor.Policy.Planner.Safety.{Guarded, plan_actions-Guarded}
use nemor.Policy.Planner.Outcome.{IsSplit, plan_actions-IsSplit}
use nemor.Policy.Engine.{PolicyEngine, new, from_state, evaluate, run}
use nemor.Policy.Engine.Runs.{HasFault, evaluate_refused, evaluate-⟶, run-Severe}
use nemor.Policy.Engine.Hysteresis.{Backed, change_needs_hold}
use PressureState.{watch, pressure}

abbrev pub config : PressureConfig ℕ
config = record {
  watch_available_percent = 40;
  pressure_available_percent = 25;
  critical_available_percent = 10;
  emergency_available_percent = 5;
  psi_some_avg10_threshold = 10;
  psi_full_avg10_threshold = 5;
  emergency_psi_full_avg10_threshold = 20;
  major_fault_rate_threshold = 100;
  swap_in_rate_threshold = 100;
  swap_out_rate_threshold = 100;
  state_hold_seconds = 2;
  recovery_hold_seconds = 4;
}

abbrev ready : CgroupCapabilities
ready = record {
  cgroup_v2 = true;
  memory_controller = true;
  hierarchy = "/sys/fs/cgroup";
  writable = true;
  memory_low = true;
  memory_high = true;
  attach = true;
}

-- An input at a time, with a share of memory available and the pressure of some tasks.
abbrev input : ℕ → ℕ → ℕ → PolicyInput ℕ
input time available some_avg10 = record {
  timestamp_ns = pos time;
  ram_total_bytes = 1000;
  mem_available_bytes = 200;
  available_percent = available;
  swap_total_bytes = some 500;
  swap_used_bytes = some 10;
  swap_in_per_second = some 0;
  swap_out_per_second = some 0;
  major_faults_per_second = some 0;
  pgscan_per_second = none;
  pgsteal_per_second = none;
  psi_memory_some_avg10 = some some_avg10;
  psi_memory_full_avg10 = some 0;
  workload_class = none;
  workload_confidence = none;
  gaming = false;
  critical_processes = 0;
  protected_processes = 0;
  unknown_processes = 1;
  foreground = ForegroundState.unknown;
  cgroup_capabilities = some ready;
  actuator_available = true;
  recent_safety_events = 0;
  recent_decisions = 0;
}

abbrev tight : List (PolicyInput ℕ × Bool)
tight = (input 1_000_000_000 20 50, false) ∷ []

abbrev later : PolicyInput ℕ
later = input 3_000_000_000 20 50

-- The pressure that was seen for two seconds changes the state.
change_needs_hold_example :
    (t : ℕ) × Backed whole config watch (pos 0) pressure (pos t) tight
    × (2_000_000_000 + t ≤ 3_000_000_000)
unfolding run new conservative rank nemor.Policy.Engine.decide evaluate validate
    nemor.Policy.Features.finite_range transition target is_immediate
    nemor.Policy.Transition.sufficient nemor.Policy.Transition.state_eq
    nemor.Policy.Transition.recovery_target nemor.Policy.Transition.at_most
    nemor.Policy.Transition.corroborating nemor.Policy.Transition.advance
    nemor.Policy.Transition.seconds_ns nemor.Policy.Transition.hold_seconds
    nemor.Policy.Transition.is_recovery nemor.Policy.Transition.since nemor.Policy.Transition.wait
    nemor.Policy.Transition.at_least nemor.Policy.Transition.enter nemor.Policy.Transition.settle
    nemor.Policy.Transition.full_emergency
change_needs_hold_example =
    change_needs_hold whole config (pos 0) tight later 3_000_000_000 refl (omega arith) refl refl
      (omega arith)

-- An engine under pressure, and an input that keeps it there.
abbrev pressed : PolicyEngine ℕ
pressed = from_state config (record (conservative (pos 0)) { current = pressure })

run-Severe_example : Severe (run whole pressed ((later, false) ∷ [])).state.current
unfolding from_state run new conservative rank nemor.Policy.Engine.decide evaluate validate
    nemor.Policy.Features.finite_range transition target is_immediate
    nemor.Policy.Transition.sufficient nemor.Policy.Transition.state_eq
    nemor.Policy.Transition.recovery_target nemor.Policy.Transition.at_most
    nemor.Policy.Transition.corroborating nemor.Policy.Transition.advance
    nemor.Policy.Transition.seconds_ns nemor.Policy.Transition.hold_seconds
    nemor.Policy.Transition.is_recovery nemor.Policy.Transition.since nemor.Policy.Transition.wait
    nemor.Policy.Transition.at_least nemor.Policy.Transition.enter nemor.Policy.Transition.settle
    nemor.Policy.Transition.full_emergency
run-Severe_example =
    run-Severe whole pressed ((later, false) ∷ []) at_pressure ((λ e. absurd (cc)), tt)

-- The input is older than the state.
abbrev recent : PolicyEngine ℕ
recent = from_state config (conservative (pos 4_000_000_000))

evaluate_refused_example :
    (((evaluate whole recent later false).1 ≡ err time_regression)
      ↔ HasFault whole recent later time_regression)
    × ((evaluate whole recent later false ≡ (recent, err time_regression))
        ↔ HasFault whole recent later time_regression)
evaluate_refused_example = evaluate_refused whole recent later false time_regression

evaluate-⟶_example :
    ((evaluate whole pressed later false).0.config ≡ config)
    × (((evaluate whole pressed later false).0.state.current ≡ pressure)
        ⊎ (pressure ⟶ (evaluate whole pressed later false).0.state.current))
unfolding from_state conservative
evaluate-⟶_example = evaluate-⟶ whole pressed later false

-- Less memory and more pressure.
abbrev worse : PolicyInput ℕ
worse = input 3_000_000_000 9 60

rank-target_mono_example : rank (target whole later config) ≤ rank (target whole worse config)
rank-target_mono_example = rank-target_mono whole whole-IsOrdered later worse config (record {
  available = refl;
  psi_some = refl;
  psi_full = refl;
  faults = refl;
  swap_in = refl;
  swap_out = refl;
})

plan_actions-Guarded_example : Guarded pressure later true (plan_actions pressure later true)
plan_actions-Guarded_example = plan_actions-Guarded pressure later true

plan_actions-IsSplit_example :
    IsSplit pressure later true
      (("target_unknown_processes", "unknown_do_not_touch") ∷ [])
      (plan_actions pressure later true)
plan_actions-IsSplit_example = plan_actions-IsSplit pressure later true

abbrev some_plan : ActionPlan
some_plan = plan_actions pressure later false

abbrev counters : ℕ → ℕ → CounterSample
counters time swap_in = record {
  timestamp_ns = pos time;
  swap_in = some swap_in;
  swap_out = none;
  major_faults = some 7;
  pgscan = some 0;
  pgsteal = none;
}

-- The tracker before its first sample.
abbrev fresh : RateTracker
fresh = record { previous = none }

abbrev before : CounterSample
before = counters 1_000_000_000 10

abbrev after : CounterSample
after = counters 3_000_000_000 30
