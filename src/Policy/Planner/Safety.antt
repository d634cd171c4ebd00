-- ===== src/Policy/Planner/Safety.antt =====
-- What the planner lets through (crates/policy-engine/src/planner.rs).
use mathlib.Core.List.{append_assoc, append-nil}
use nemor.Base.{
  ◌≡◌, refl, ◌∙◌, ◌⊎◌, inl, inr, Bool, true, false, not, String, List, [], ◌∷◌, ◌++◌, arith, map,
  All, filter, Bool-cases,
}
use nemor.Policy.State.{PressureState}
use nemor.Policy.Features.{PolicyInput}
use nemor.Policy.Planner.{
  PlannedAction, ActionPlan, rejection, reject_each, reject_mutations, guard_severe,
  guard_stabilizing, state_plan, plan_actions, capabilities_ready,
}
use PressureState.{normal, watch, pressure, critical, emergency, stabilizing}

abbrev pub is_mutating : PlannedAction → Bool
is_mutating a = a.mutating

abbrev pub is_harmless : PlannedAction → Bool
is_harmless a = not a.mutating

reject_each_lem :
    (code : String) (items : List PlannedAction) (plan : ActionPlan)
    → reject_each code items plan ≡ record {
      planned = plan.planned ++ filter is_harmless items;
      rejected = plan.rejected ++ map (rejection code) (filter is_mutating items);
    }
unfolding reject_each
reject_each_lem code [] plan = simp append-nil
reject_each_lem code (item ∷ items) plan = elim (Bool-cases item.mutating) [
  | inl m ↦ simp m (
      reject_each_lem code items
        (record plan { rejected = plan.rejected ++ (rejection code item ∷ []) })
      ∙ simp append_assoc)
  | inr m ↦ simp m (
      reject_each_lem code items (record plan { planned = plan.planned ++ (item ∷ []) })
      ∙ simp append_assoc)
]

-- `reject_mutations` keeps the harmless actions in their order, and moves the mutating ones, in
-- their order and with the code, behind the actions rejected before.
pub reject_mutations_lem :
    (code : String) (plan : ActionPlan)
    → reject_mutations code plan ≡ record {
      planned = filter is_harmless plan.planned;
      rejected = plan.rejected ++ map (rejection code) (filter is_mutating plan.planned);
    }
unfolding reject_mutations
reject_mutations_lem code plan = reject_each_lem code plan.planned (record plan { planned = [] })

-- No action of the plan mutates.
abbrev pub IsHarmless : ActionPlan → Type 0
IsHarmless plan = All (λ a. a.mutating ≡ false) plan.planned

filter-harmless :
    (items : List PlannedAction) → All (λ a. a.mutating ≡ false) (filter is_harmless items)
filter-harmless [] = tt
filter-harmless (item ∷ items) = ground (arith, filter-harmless items)

reject_mutations-IsHarmless :
    (code : String) (plan : ActionPlan) → IsHarmless (reject_mutations code plan)
reject_mutations-IsHarmless code plan =
    rw (reject_mutations_lem code plan) (filter-harmless plan.planned)

-- What a plan of the given state and input may contain.
module _ {F : Type 0} where
  -- The guards of a severe state: no recent safety event, usable cgroups, an actuator.
  abbrev MayMutate : PolicyInput F → Bool → Type 0
  MayMutate i observe =
      (i.recent_safety_events ≡ 0)
      × (capabilities_ready i ≡ true)
      × (observe ≡ false)
      × (i.actuator_available ≡ true)

  guard_severe_cases :
      (i : PolicyInput F) (observe : Bool) (plan : ActionPlan)
      → IsHarmless (guard_severe i observe plan)
        ⊎ (MayMutate i observe × (guard_severe i observe plan ≡ plan))
  unfolding guard_severe
  guard_severe_cases i observe plan = ground (
    arith,
    reject_mutations-IsHarmless "recent_cgroup_safety_event" plan,
    reject_mutations-IsHarmless "cgroup_capability_unavailable" plan,
    reject_mutations-IsHarmless "observe_mode" plan,
    reject_mutations-IsHarmless "actuator_unavailable" plan,
  )

  guard_stabilizing_cases :
      (i : PolicyInput F) (observe : Bool) (plan : ActionPlan)
      → IsHarmless (guard_stabilizing i observe plan)
        ⊎ ((i.recent_safety_events ≡ 0)
            × (observe ≡ false)
            × (guard_stabilizing i observe plan ≡ plan))
  unfolding guard_stabilizing
  guard_stabilizing_cases i observe plan = ground (
    arith,
    reject_mutations-IsHarmless "recent_cgroup_safety_event" plan,
    reject_mutations-IsHarmless "observe_mode" plan,
  )

  -- What lets a plan of the state mutate.
  abbrev pub Guarded : PressureState → PolicyInput F → Bool → ActionPlan → Type 0
  Guarded state i observe plan =
      IsHarmless plan
      ⊎ ((observe ≡ false)
          × (i.recent_safety_events ≡ 0)
          × ((state ≡ stabilizing)
              ⊎ ((capabilities_ready i ≡ true) × (i.actuator_available ≡ true))))

  guard_severe-Guarded :
      (state : PressureState) (i : PolicyInput F) (observe : Bool) (plan : ActionPlan)
      → Guarded state i observe (guard_severe i observe plan)
  guard_severe-Guarded state i observe plan = elim (guard_severe_cases i observe plan) [
    | inl h ↦ inl h
    | inr ((e, r, o, a), _) ↦ inr (o, e, inr (r, a))
  ]

  guard_stabilizing-Guarded :
      (i : PolicyInput F) (observe : Bool) (plan : ActionPlan)
      → Guarded stabilizing i observe (guard_stabilizing i observe plan)
  guard_stabilizing-Guarded i observe plan = elim (guard_stabilizing_cases i observe plan) [
    | inl h ↦ inl h
    | inr (e, o, _) ↦ inr (o, e, inl refl)
  ]

  state_plan-Guarded :
      (state : PressureState) (i : PolicyInput F) (observe : Bool)
      → Guarded state i observe (state_plan state i observe)
  unfolding state_plan
  state_plan-Guarded normal i observe = inl (ground arith)
  state_plan-Guarded watch i observe = inl (ground arith)
  state_plan-Guarded pressure i observe = guard_severe-Guarded pressure i observe _
  state_plan-Guarded critical i observe = guard_severe-Guarded critical i observe _
  state_plan-Guarded emergency i observe = guard_severe-Guarded emergency i observe _
  state_plan-Guarded stabilizing i observe = guard_stabilizing-Guarded i observe _

  plan_actions-planned :
      (state : PressureState) (i : PolicyInput F) (observe : Bool)
      → (plan_actions state i observe).planned ≡ (state_plan state i observe).planned
  unfolding plan_actions
  plan_actions-planned state i observe = ground arith

  -- An action that mutates is planned only outside observe mode and with no recent safety event; and
  -- in every state but `stabilizing` only with usable cgroups and an available actuator too.
  pub plan_actions-Guarded :
      (state : PressureState) (i : PolicyInput F) (observe : Bool)
      → Guarded state i observe (plan_actions state i observe)
  plan_actions-Guarded state i observe =
      rw (plan_actions-planned state i observe) (state_plan-Guarded state i observe)
