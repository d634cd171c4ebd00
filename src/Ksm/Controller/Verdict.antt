-- ===== src/Ksm/Controller/Verdict.antt =====
-- How the controller comes to a verdict (crates/ksm/src/lib.rs).
use nemor.Base.{
  ◌≡◌, ◌⊎◌, inl, inr, refl, Bool, true, false, not, List, [], ◌∷◌, arith, find, all, Option, none,
  some, Bool-cases, if◌then◌else◌,
}
use nemor.Base.Float.{Float}
use nemor.Ksm.Controller.{
  ControllerState, ControllerInput, unknown, evaluating, profitable, inefficient, cooldown,
  too_early, does_not_pay, next_state, controller_transition,
}

module _ {F : Type 0} (fl : Float F) where
  pub run : ControllerState → List (ControllerInput F) → ControllerState
  run state [] = state
  run state (i ∷ is) = run (controller_transition fl state i) is

  -- An input decides where it has run long enough.
  abbrev pub decides : ControllerInput F → Bool
  decides i = not (too_early fl i)

  abbrev pub verdict : Option (ControllerInput F) → ControllerState
  verdict none = evaluating
  verdict (some i) = if does_not_pay fl i then inefficient else profitable

  abbrev pub is_active : ControllerInput F → Bool
  is_active i = not i.cooldown_active

  run-settled :
      (s : ControllerState) (is : List (ControllerInput F))
      → all is_active is ≡ true
      → (s ≡ inefficient) ⊎ (s ≡ profitable)
      → run s is ≡ s
  unfolding run controller_transition next_state
  run-settled s [] h k = refl
  run-settled s (i ∷ is) h (inl e) = ground (arith, run-settled inefficient is)
  run-settled s (i ∷ is) h (inr e) = ground (arith, run-settled profitable is)

  run-evaluating :
      (is : List (ControllerInput F))
      → all is_active is ≡ true
      → run evaluating is ≡ verdict (find decides is)
  unfolding run controller_transition next_state
  run-evaluating [] h = refl
  run-evaluating (i ∷ is) h = elim (Bool-cases (too_early fl i)) [
    | inl early ↦ ground (arith, run-evaluating is)
    | inr late ↦ ground (arith, run-settled inefficient is, run-settled profitable is)
  ]

  run-cooldown : (is : List (ControllerInput F)) → run cooldown is ≡ cooldown
  unfolding run controller_transition next_state
  run-cooldown [] = refl
  run-cooldown (i ∷ is) = ground (arith, run-cooldown is)

  run-any_cooldown :
      (s : ControllerState) (is : List (ControllerInput F))
      → all is_active is ≡ false
      → run s is ≡ cooldown
  unfolding run controller_transition
  run-any_cooldown s [] h = ground arith
  run-any_cooldown s (i ∷ is) h =
      ground (arith, run-cooldown is, run-any_cooldown (controller_transition fl s i) is)

  -- A run from `unknown` over a first input and others: the first input only starts the evaluation,
  -- and the run ends in the verdict on the first one of the others that has run long enough, or in
  -- `evaluating` if none of them has; if any input, the first included, has an active cooldown, the
  -- run ends in `cooldown`.
  pub run-verdict :
      (i : ControllerInput F) (is : List (ControllerInput F))
      → run unknown (i ∷ is)
        ≡ (if all is_active (i ∷ is) then verdict (find decides is) else cooldown)
  unfolding run controller_transition next_state
  run-verdict i is = elim (Bool-cases (all is_active is)) [
    | inl calm ↦ ground (arith, run-evaluating is calm, run-cooldown is)
    | inr ended ↦
        ground
          (arith, run-cooldown is, run-any_cooldown (controller_transition fl unknown i) is ended)
  ]
