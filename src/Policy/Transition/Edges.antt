-- ===== src/Policy/Transition/Edges.antt =====
-- The diagram of the pressure states, with hold times left out (crates/policy-engine/src/transition.rs).
use nemor.Base.{◌<◌, ◌≡◌, ◌≢◌, ◌⊎◌, some, true, false, arith}
use nemor.Base.Float.{Float}
use nemor.Common.Config.{PressureConfig}
use nemor.Policy.State.{PressureState, rank, PersistentState}
use nemor.Policy.Features.{PolicyInput}
use nemor.Policy.Transition.{recovery_target, target, advance, transition, enter, wait, settle}
use nemor.Policy.Transition.Order.{state_eq_iff}
use PressureState.{normal, watch, pressure, critical, emergency, stabilizing}

-- States in which cgroup limits may be asked for.
pub data Severe : PressureState → Type 0 where
  at_pressure : Severe pressure
  at_critical : Severe critical
  at_emergency : Severe emergency

-- States with no measure in force.
pub data Calm : PressureState → Type 0 where
  at_normal : Calm normal
  at_watch : Calm watch

infix 40 ◌⟶◌
pub data ◌⟶◌ : PressureState → PressureState → Type 0 where
  relax : watch ⟶ normal
  notice : normal ⟶ watch
  alarm : {s t : PressureState} → Calm s → Severe t → s ⟶ t
  escalate : {s t : PressureState} → Severe s → Severe t → rank s < rank t → s ⟶ t
  release : {s : PressureState} → Severe s → s ⟶ stabilizing
  relapse : {t : PressureState} → Severe t → stabilizing ⟶ t
  recover : stabilizing ⟶ normal

ruleset edges = (
  relax, notice, alarm, escalate, release, relapse, recover, at_pressure, at_critical, at_emergency,
  at_normal, at_watch,
)

-- A target is never `stabilizing`.
pub target-ne-stabilizing :
    {F : Type 0} (fl : Float F) (i : PolicyInput F) (c : PressureConfig F)
    → target fl i c ≢ stabilizing
unfolding target
target-ne-stabilizing fl i c = ground arith

edge_of_target :
    (s t : PressureState) → t ≢ stabilizing → recovery_target s t ≢ s → s ⟶ recovery_target s t
unfolding recovery_target rank
edge_of_target normal normal h n = grind (arith, edges)
edge_of_target normal _ h n = grind (arith, edges)
edge_of_target watch normal h n = grind (arith, edges)
edge_of_target watch _ h n = grind (arith, edges)
edge_of_target pressure normal h n = grind (arith, edges)
edge_of_target pressure _ h n = grind (arith, edges)
edge_of_target critical normal h n = grind (arith, edges)
edge_of_target critical _ h n = grind (arith, edges)
edge_of_target emergency normal h n = grind (arith, edges)
edge_of_target emergency _ h n = grind (arith, edges)
edge_of_target stabilizing normal h n = grind (arith, edges)
edge_of_target stabilizing _ h n = grind (arith, edges)

module _ {F : Type 0} (fl : Float F) where
  advance-current :
      (s : PersistentState) (d : PressureState) (i : PolicyInput F) (c : PressureConfig F)
      → let r = advance fl s d i c in
        ((r.changed ≡ true) × (r.state.current ≡ d))
        ⊎ ((r.changed ≡ false) × (r.state.current ≡ s.current))
  unfolding advance enter wait
  advance-current s d i c = ground arith

  -- A transition follows an edge of the diagram where it changes the state, and otherwise leaves the
  -- current state, its predecessor and its time of entry.
  pub transition-⟶ :
      (s : PersistentState) (i : PolicyInput F) (c : PressureConfig F)
      → let r = transition fl s i c in
        ((r.changed ≡ true)
          × (s.current ⟶ r.state.current)
          × (r.state.previous ≡ some s.current)
          × (r.state.entered_at_ns ≡ i.timestamp_ns))
        ⊎ ((r.changed ≡ false)
            × (r.state.current ≡ s.current)
            × (r.state.previous ≡ s.previous)
            × (r.state.entered_at_ns ≡ s.entered_at_ns))
  unfolding transition advance enter wait settle
  transition-⟶ s i c = ground (
    arith,
    state_eq_iff (recovery_target s.current (target fl i c)) s.current,
    edge_of_target s.current (target fl i c) (target-ne-stabilizing fl i c),
  )
