-- ===== src/Policy/Planner/Outcome.antt =====
-- What becomes of the actions that a state asks for (crates/policy-engine/src/planner.rs).
use mathlib.Core.List.{append-nil, map-append}
use nemor.Base.{
  ℕ, ◌≡◌, ◌<◌, refl, sym, ap, ◌∙◌, ◌⊎◌, inl, inr, Bool, true, false, not, String, List, [], ◌∷◌,
  ◌++◌, arith, map, All, filter, ltb, Bool-cases, if◌then◌else◌,
}
use nemor.Policy.State.{PressureState}
use nemor.Policy.Features.{PolicyInput}
use nemor.Policy.Transition.Edges.{Severe, at_pressure, at_critical, at_emergency}
use nemor.Policy.Planner.Safety.{is_mutating, is_harmless, reject_mutations_lem}
use nemor.Policy.Planner.{
  ZramProfileIntent, MemoryBackendIntent, ActionKind, PlannedAction, RejectedAction, ActionPlan,
  kind_text, action, zram_action, tiering_action, rejection, reject_mutations, is_pressure,
  severe_actions, severe_plan, guard_severe, guard_stabilizing, state_plan, plan_actions,
  capabilities_ready, unknown_rejection,
}
use PressureState.{normal, watch, pressure, critical, emergency, stabilizing}
use ZramProfileIntent.{safe, gaming, capacity}
use MemoryBackendIntent.{zram, zswap_nvme}
use ActionKind.{
  no_action, prepare_foreground_protection, protect_foreground, apply_background_soft_limit,
  rollback_cgroup_measures, select_zram_profile, select_memory_backend,
}

-- The kinds of action a state asks for, in a game or outside one.
abbrev pub asked : PressureState → Bool → List ActionKind
asked normal _ = no_action ∷ select_zram_profile safe ∷ select_memory_backend zram ∷ []
asked watch game =
    prepare_foreground_protection
    ∷ select_zram_profile (if game then gaming else safe)
    ∷ select_memory_backend zram
    ∷ []
asked pressure game =
    protect_foreground
    ∷ select_zram_profile (if game then gaming else capacity)
    ∷ select_memory_backend (if game then zram else zswap_nvme)
    ∷ apply_background_soft_limit
    ∷ []
asked stabilizing _ =
    rollback_cgroup_measures ∷ select_zram_profile safe ∷ select_memory_backend zram ∷ []
asked _ game =
    protect_foreground
    ∷ select_zram_profile (if game then gaming else safe)
    ∷ select_memory_backend zram
    ∷ apply_background_soft_limit
    ∷ []

-- The kinds that change the control groups.
abbrev pub changes : ActionKind → Bool
changes protect_foreground = true
changes apply_background_soft_limit = true
changes rollback_cgroup_measures = true
changes _ = false

abbrev pub keeps : ActionKind → Bool
keeps k = not (changes k)

-- What a rejection says: the action it names, and the reason.
abbrev pub answer : RejectedAction → String × String
answer r = (r.requested, r.reason_code)

abbrev pub refusal : String → ActionKind → String × String
refusal code k = (kind_text k, code)

abbrev pub kinds : ActionPlan → List ActionKind
kinds plan = map (λ a. a.kind) plan.planned

-- The answer about unknown processes, where there are any.
abbrev pub about_unknown : ℕ → List (String × String)
about_unknown n = if ltb 0 n then ("target_unknown_processes", "unknown_do_not_touch") ∷ [] else []

-- The reasons for which the actions that change a control group are rejected in a state.
pub data Blocked {F : Type 0} (i : PolicyInput F) (observe : Bool)
    : PressureState → String → Type 0 where
  by_event :
      {s : PressureState}
      → 0 < i.recent_safety_events
      → Blocked i observe s "recent_cgroup_safety_event"
  by_mode : {s : PressureState} → observe ≡ true → Blocked i observe s "observe_mode"
  by_cgroups :
      {s : PressureState}
      → Severe s
      → capabilities_ready i ≡ false
      → Blocked i observe s "cgroup_capability_unavailable"
  by_actuator :
      {s : PressureState}
      → Severe s
      → i.actuator_available ≡ false
      → Blocked i observe s "actuator_unavailable"

harmless-keeps :
    (items : List PlannedAction)
    → All (λ a. a.mutating ≡ changes a.kind) items
    → map (λ a. a.kind) (filter is_harmless items) ≡ filter keeps (map (λ a. a.kind) items)
harmless-keeps [] h = refl
harmless-keeps (a ∷ items) (e, h) = ground (arith, harmless-keeps items h)

mutating-changes :
    (code : String) (items : List PlannedAction)
    → All (λ a. a.mutating ≡ changes a.kind) items
    → map answer (map (rejection code) (filter is_mutating items))
      ≡ map (refusal code) (filter changes (map (λ a. a.kind) items))
unfolding rejection
mutating-changes code [] h = refl
mutating-changes code (a ∷ items) (e, h) = ground (arith, mutating-changes code items h)

module _ {F : Type 0} where
  -- Either all that was asked for is planned, or for a reason what would change a control group is
  -- rejected under its name and with that reason, and the rest is planned; `more` is what is
  -- rejected besides.
  abbrev pub IsSplit :
      PressureState → PolicyInput F → Bool → List (String × String) → ActionPlan → Type 0
  IsSplit s i observe more plan =
      ((kinds plan ≡ asked s i.gaming) × (map answer plan.rejected ≡ more))
      ⊎ ((code : String) × Blocked i observe s code
          × (kinds plan ≡ filter keeps (asked s i.gaming))
          × (map answer plan.rejected
              ≡ map (refusal code) (filter changes (asked s i.gaming)) ++ more))

  -- A guard lets the plan through, or rejects what mutates for a reason.
  abbrev Decides : PressureState → PolicyInput F → Bool → ActionPlan → ActionPlan → Type 0
  Decides s i observe plan guarded =
      (guarded ≡ plan)
      ⊎ ((code : String) × Blocked i observe s code × (guarded ≡ reject_mutations code plan))

  guard_severe-Decides :
      (s : PressureState) (i : PolicyInput F) (observe : Bool) (plan : ActionPlan)
      → Severe s
      → Decides s i observe plan (guard_severe i observe plan)
  unfolding guard_severe
  guard_severe-Decides s i observe plan v = elim (Bool-cases (ltb 0 i.recent_safety_events)) [
    | inl a ↦ rw a (inr (_, by_event (ground arith), refl))
    | inr a ↦ rw a (elim (Bool-cases (capabilities_ready i)) [
      | inr b ↦ rw b (inr (_, by_cgroups v b, refl))
      | inl b ↦ rw b (elim (Bool-cases observe) [
        | inl c ↦ rw c (inr (_, by_mode refl, refl))
        | inr c ↦ rw c (elim (Bool-cases i.actuator_available) [
          | inr d ↦ simp d (inr (_, by_actuator v d, refl))
          | inl d ↦ rw d (inl refl)
        ])
      ])
    ])
  ]

  guard_stabilizing-Decides :
      (s : PressureState) (i : PolicyInput F) (observe : Bool) (plan : ActionPlan)
      → Decides s i observe plan (guard_stabilizing i observe plan)
  unfolding guard_stabilizing
  guard_stabilizing-Decides s i observe plan = elim (Bool-cases (ltb 0 i.recent_safety_events)) [
    | inl a ↦ rw a (inr (_, by_event (ground arith), refl))
    | inr a ↦ rw a (elim (Bool-cases observe) [
      | inl c ↦ rw c (inr (_, by_mode refl, refl))
      | inr c ↦ rw c (inl refl)
    ])
  ]

  -- The plan holds what was asked for, and the kind of each action tells whether it mutates.
  abbrev IsAsked : PressureState → PolicyInput F → ActionPlan → Type 0
  IsAsked s i plan =
      (kinds plan ≡ asked s i.gaming)
      × All (λ a. a.mutating ≡ changes a.kind) plan.planned
      × (plan.rejected ≡ [])

  Decides-IsSplit :
      (s : PressureState) (i : PolicyInput F) (observe : Bool) (plan guarded : ActionPlan)
      → IsAsked s i plan
      → Decides s i observe plan guarded
      → IsSplit s i observe [] guarded
  Decides-IsSplit s i observe plan guarded (k, m, r) (inl e) = inl (rw e k, rw (e, r) refl)
  Decides-IsSplit s i observe plan guarded (k, m, r) (inr (code, b, e)) =
      let e' = e ∙ reject_mutations_lem code plan in
      inr (
        code,
        b,
        rw e' (harmless-keeps plan.planned m ∙ ap (filter keeps) k),
        rw (e', r)
            (mutating-changes code plan.planned m
              ∙ ap (λ ks. map (refusal code) (filter changes ks)) k
              ∙ sym (append-nil (map (refusal code) (filter changes (asked s i.gaming))))),
      )

  severe_actions-IsAsked :
      (s : PressureState) (i : PolicyInput F)
      → Severe s
      → IsAsked s i (record { planned = severe_actions s i; rejected = [] })
  unfolding severe_actions action zram_action tiering_action is_pressure
  severe_actions-IsAsked s i at_pressure = elim (Bool-cases i.gaming) [
    | inl g ↦ rw g (refl, (refl, (refl, (refl, (refl, tt)))), refl)
    | inr g ↦ rw g (refl, (refl, (refl, (refl, (refl, tt)))), refl)
  ]
  severe_actions-IsAsked s i at_critical = elim (Bool-cases i.gaming) [
    | inl g ↦ rw g (refl, (refl, (refl, (refl, (refl, tt)))), refl)
    | inr g ↦ rw g (refl, (refl, (refl, (refl, (refl, tt)))), refl)
  ]
  severe_actions-IsAsked s i at_emergency = elim (Bool-cases i.gaming) [
    | inl g ↦ rw g (refl, (refl, (refl, (refl, (refl, tt)))), refl)
    | inr g ↦ rw g (refl, (refl, (refl, (refl, (refl, tt)))), refl)
  ]

  severe_plan-IsSplit :
      (s : PressureState) (i : PolicyInput F) (observe : Bool)
      → Severe s
      → IsSplit s i observe [] (severe_plan s i observe)
  unfolding severe_plan
  severe_plan-IsSplit s i observe v =
      Decides-IsSplit s i observe _ _ (severe_actions-IsAsked s i v)
        (guard_severe-Decides s i observe _ v)

  state_plan-IsSplit :
      (s : PressureState) (i : PolicyInput F) (observe : Bool)
      → IsSplit s i observe [] (state_plan s i observe)
  unfolding state_plan action zram_action tiering_action
  state_plan-IsSplit normal i observe = inl (refl, refl)
  state_plan-IsSplit watch i observe = inl (refl, refl)
  state_plan-IsSplit pressure i observe = severe_plan-IsSplit pressure i observe at_pressure
  state_plan-IsSplit critical i observe = severe_plan-IsSplit critical i observe at_critical
  state_plan-IsSplit emergency i observe = severe_plan-IsSplit emergency i observe at_emergency
  state_plan-IsSplit stabilizing i observe =
      Decides-IsSplit stabilizing i observe _ _ (refl, (refl, (refl, (refl, tt))), refl)
        (guard_stabilizing-Decides stabilizing i observe _)

  -- What an action of unknown processes adds.
  IsSplit-more :
      (s : PressureState) (i : PolicyInput F) (observe : Bool) (plan : ActionPlan)
      (r : RejectedAction)
      → IsSplit s i observe [] plan
      → IsSplit s i observe (answer r ∷ []) (record plan { rejected = plan.rejected ++ (r ∷ []) })
  IsSplit-more s i observe plan r (inl (k, e)) =
      inl (k, map-append answer plan.rejected (r ∷ []) ∙ ap (λ rs. rs ++ (answer r ∷ [])) e)
  IsSplit-more s i observe plan r (inr (code, b, k, e)) = inr (
    code,
    b,
    k,
    map-append answer plan.rejected (r ∷ []) ∙ ap (λ rs. rs ++ (answer r ∷ [])) (e ∙ append-nil _),
  )

  -- In each state all that is asked for is planned and nothing is rejected but the unknown
  -- processes, where there are any; or, for a reason that holds, exactly the actions that would
  -- change a control group are rejected, each under its name and with that reason, and all the
  -- others are planned.
  pub plan_actions-IsSplit :
      (s : PressureState) (i : PolicyInput F) (observe : Bool)
      → IsSplit s i observe (about_unknown i.unknown_processes) (plan_actions s i observe)
  unfolding plan_actions unknown_rejection
  plan_actions-IsSplit s i observe = elim (Bool-cases (ltb 0 i.unknown_processes)) [
    | inl u ↦ rw u (IsSplit-more s i observe _ _ (state_plan-IsSplit s i observe))
    | inr u ↦ rw u (state_plan-IsSplit s i observe)
  ]
