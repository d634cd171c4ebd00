-- ===== src/Policy/Transition.antt =====
-- The pressure state machine (crates/policy-engine/src/transition.rs).
pub mod Order
pub mod Edges
pub mod Hold
pub mod Severity
use nemor.Base.{
  ℕ, suc, ◌+◌, ◌*◌, Bool, true, false, not, ◌&&◌, ◌||◌, String, ◌+++◌, Option, none, some, List, [],
  ◌∷◌, ltb, leb, ◌==◌, is_some, is_some_and, unwrap_or, if◌then◌else◌, decimal, ◌≡◌, refl,
}
use nemor.Base.Integer.{ℤ, pos, leb_ℤ, saturating_sub, i64_max}
use nemor.Base.Float.{Float}
use nemor.Common.Config.{PressureConfig}
use nemor.Policy.State.{PressureState, rank, PersistentState, PolicyEvidence, CandidateRejection}
use nemor.Policy.Features.{PolicyInput}
use PressureState.{normal, watch, pressure, critical, emergency, stabilizing}

-- The derived `==` on states.
unfoldable pub state_eq : PressureState → PressureState → Bool
unfolding rank
state_eq a b = rank a == rank b

pub record TransitionResult (F : Type 0) : Type 0 where
  pub state : PersistentState
  pub changed : Bool
  pub evidence : List (PolicyEvidence F)
  pub rejected : List CandidateRejection

unfoldable pub recovery_target : PressureState → PressureState → PressureState
unfolding rank
recovery_target pressure observed =
    if ltb (rank observed) (rank pressure) then stabilizing else observed
recovery_target critical observed =
    if ltb (rank observed) (rank critical) then stabilizing else observed
recovery_target emergency observed =
    if ltb (rank observed) (rank emergency) then stabilizing else observed
recovery_target stabilizing observed =
    if state_eq observed normal
    then normal
    else if ltb (rank watch) (rank observed)
    then observed
    else stabilizing
recovery_target normal observed = observed
recovery_target watch observed = observed

unfoldable pub is_recovery : PressureState → PressureState → Bool
unfolding state_eq
is_recovery current desired =
    state_eq desired stabilizing || (state_eq current stabilizing && state_eq desired normal)

-- The product is computed in 128 bits, and `i64::MAX` where it does not fit.
unfoldable pub seconds_ns : ℕ → ℤ
seconds_ns seconds =
    let ns = seconds * 1_000_000_000 in if leb ns i64_max then pos ns else pos i64_max

abbrev one_if : Bool → ℕ
one_if true = 1
one_if false = 0

-- Since when the desired state is the candidate, at the time `now`.
unfoldable pub since : PersistentState → PressureState → ℤ → ℤ
unfolding state_eq
since s desired now =
    if is_some_and s.candidate (λ c. state_eq c desired)
    then unwrap_or s.candidate_since_ns now
    else now

unfoldable pub settle : PersistentState → String → PersistentState
settle s reason = record s {
  candidate = none;
  candidate_since_ns = none;
  transition_reason = reason;
}

unfoldable pub enter : PersistentState → PressureState → ℤ → Bool → PersistentState
enter s desired now immediate = record s {
  previous = some s.current;
  current = desired;
  entered_at_ns = now;
  last_transition_ns = some now;
  candidate = none;
  candidate_since_ns = none;
  transition_reason =
      if immediate then "immediate_multi_signal_emergency" else "candidate_hold_completed";
}

unfoldable pub wait : PersistentState → PressureState → ℤ → PersistentState
wait s desired candidate_since = record s {
  candidate = some desired;
  candidate_since_ns = some candidate_since;
  transition_reason = "hysteresis_hold_in_progress";
}

module _ {F : Type 0} where
  unfoldable pub ev : String → Option F → Option F → PolicyEvidence F
  ev signal value threshold = record {
    signal = signal;
    value = value;
    threshold = threshold;
    relation = "observed_against_configured_threshold";
    available = is_some value;
  }

  -- At least one of the five signals was measured.
  unfoldable pub sufficient : PolicyInput F → Bool
  sufficient i =
      is_some i.psi_memory_some_avg10
      || (is_some i.psi_memory_full_avg10
          || (is_some i.major_faults_per_second
              || (is_some i.swap_in_per_second || is_some i.swap_out_per_second)))

  unfoldable pub hold_seconds : PressureState → PressureState → PressureConfig F → ℕ
  hold_seconds current desired c =
      if is_recovery current desired then c.recovery_hold_seconds else c.state_hold_seconds

module _ {F : Type 0} (fl : Float F) where
  -- `value.is_some_and(|v| v >= threshold)`.
  unfoldable pub at_least : Option F → F → Bool
  at_least none threshold = false
  at_least (some v) threshold = fl.le threshold v

  unfoldable pub evidence_of : PolicyInput F → PressureConfig F → List (PolicyEvidence F)
  unfolding ev
  evidence_of i c =
      ev "mem_available_percent" (some i.available_percent)
        (some (fl.of_nat c.watch_available_percent))
      ∷ ev "psi_memory_some_avg10" i.psi_memory_some_avg10 (some c.psi_some_avg10_threshold)
      ∷ ev "psi_memory_full_avg10" i.psi_memory_full_avg10 (some c.psi_full_avg10_threshold)
      ∷ ev "major_faults_per_second" i.major_faults_per_second (some c.major_fault_rate_threshold)
      ∷ ev "swap_in_per_second" i.swap_in_per_second (some c.swap_in_rate_threshold)
      ∷ ev "swap_out_per_second" i.swap_out_per_second (some c.swap_out_rate_threshold)
      ∷ []

  -- The number of signals at or above their thresholds.
  unfoldable pub corroborating : PolicyInput F → PressureConfig F → ℕ
  unfolding at_least
  corroborating i c =
      one_if (at_least i.psi_memory_some_avg10 c.psi_some_avg10_threshold)
      + (one_if (at_least i.psi_memory_full_avg10 c.psi_full_avg10_threshold)
          + (one_if (at_least i.major_faults_per_second c.major_fault_rate_threshold)
              + (one_if (at_least i.swap_in_per_second c.swap_in_rate_threshold)
                  + one_if (at_least i.swap_out_per_second c.swap_out_rate_threshold))))

  unfoldable pub full_emergency : PolicyInput F → PressureConfig F → Bool
  unfolding at_least
  full_emergency i c = at_least i.psi_memory_full_avg10 c.emergency_psi_full_avg10_threshold

  -- `available <= f64::from(percent)`.
  unfoldable pub at_most : PolicyInput F → ℕ → Bool
  at_most i percent = fl.le i.available_percent (fl.of_nat percent)

  unfoldable pub target : PolicyInput F → PressureConfig F → PressureState
  target i c =
      let n = corroborating i c in
      if at_most i c.emergency_available_percent && (full_emergency i c || leb 2 n)
      then emergency
      else if at_most i c.critical_available_percent && leb 2 n
      then critical
      else if at_most i c.pressure_available_percent && leb 1 n
      then pressure
      else if at_most i c.watch_available_percent || leb 1 n
      then watch
      else normal

  unfoldable pub is_immediate : PressureState → PolicyInput F → PressureConfig F → Bool
  is_immediate desired i c =
      state_eq desired emergency && (at_most i c.emergency_available_percent && full_emergency i c)

  -- The part of `transition` behind its two early returns.
  unfoldable pub advance :
      PersistentState → PressureState → PolicyInput F → PressureConfig F → TransitionResult F
  advance s desired i c =
      let immediate = is_immediate desired i c in
      let hold = hold_seconds s.current desired c in
      let candidate_since = since s desired i.timestamp_ns in
      let elapsed = saturating_sub i.timestamp_ns candidate_since in
      if immediate || leb_ℤ (seconds_ns hold) elapsed
      then record {
        state = enter s desired i.timestamp_ns immediate;
        changed = true;
        evidence = evidence_of i c;
        rejected = [];
      }
      else record {
        state = wait s desired candidate_since;
        changed = false;
        evidence = evidence_of i c;
        rejected =
            record { candidate = desired; reason = "hold requires " +++ (decimal hold +++ "s") }
            ∷ [];
      }

  unfoldable pub transition :
      PersistentState → PolicyInput F → PressureConfig F → TransitionResult F
  transition s i c =
      let desired = recovery_target s.current (target i c) in
      if not (sufficient i)
      then record {
        state = settle s "insufficient_or_unavailable_telemetry";
        changed = false;
        evidence = evidence_of i c;
        rejected = [];
      }
      else if state_eq desired s.current
      then record {
        state = settle s "state_evidence_stable";
        changed = false;
        evidence = evidence_of i c;
        rejected = [];
      }
      else advance s desired i c
