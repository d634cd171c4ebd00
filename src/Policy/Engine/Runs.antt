-- ===== src/Policy/Engine/Runs.antt =====
-- What holds of an engine over every sequence of inputs (crates/policy-engine/src/policy.rs).
use mathlib.Core.Path.{subst}
use nemor.Base.{
  ◌≡◌, refl, sym, ap, ◌↔◌, Result, ◌≢◌, ◌⊎◌, inl, inr, Bool, true, List, [], ◌∷◌, arith, All, ok,
  err,
}
use nemor.Base.Float.{Float}
use nemor.Base.Integer.{ltb_ℤ}
use nemor.Policy.State.{PressureState, PolicyError, time_regression}
use nemor.Policy.Features.{PolicyInput, validate}
use nemor.Policy.Transition.Edges.{
  ◌⟶◌, relax, notice, alarm, escalate, release, relapse, recover, transition-⟶, Severe,
}
use nemor.Policy.Engine.{PolicyEngine, PolicyDecision, decide, evaluate, run}
use PressureState.{stabilizing}

Severe-edge : {s t : PressureState} → s ⟶ t → Severe s → t ≢ stabilizing → Severe t
Severe-edge relax v n = elim v [ ]
Severe-edge notice v n = elim v [ ]
Severe-edge (alarm c w) v n = w
Severe-edge (escalate u w r) v n = w
Severe-edge (release u) v n = absurd (n refl)
Severe-edge (relapse w) v n = w
Severe-edge recover v n = elim v [ ]

module _ {F : Type 0} (fl : Float F) where
  -- Why an evaluation may be refused: the input is invalid, or older than the current state.
  abbrev pub HasFault : PolicyEngine F → PolicyInput F → PolicyError → Type 0
  HasFault e i x =
      (validate fl i ≡ err x)
      ⊎ ((validate fl i ≡ ok tt)
          × (ltb_ℤ i.timestamp_ns e.state.entered_at_ns ≡ true)
          × (x ≡ time_regression))

  evaluate-HasFault :
      (e : PolicyEngine F) (i : PolicyInput F) (observe : Bool) (x : PolicyError)
      → (evaluate fl e i observe).1 ≡ err x
      → HasFault e i x
  unfolding evaluate
  evaluate-HasFault e i observe x h = ground arith

  HasFault-evaluate :
      (e : PolicyEngine F) (i : PolicyInput F) (observe : Bool) (x : PolicyError)
      → HasFault e i x
      → evaluate fl e i observe ≡ (e, err x)
  unfolding evaluate
  HasFault-evaluate e i observe x (inl a) = rw (evaluate, a) refl
  HasFault-evaluate e i observe x (inr (a, b, c)) = rw (evaluate, a, b, c) refl

  -- An evaluation is refused with an error exactly where the input is invalid and this is its
  -- error, or where it is valid but older than the current state and the error is that of time;
  -- and exactly then the outcome is that error with the engine unchanged.
  pub evaluate_refused :
      (e : PolicyEngine F) (i : PolicyInput F) (observe : Bool) (x : PolicyError)
      → (((evaluate fl e i observe).1 ≡ err x) ↔ HasFault e i x)
        × ((evaluate fl e i observe ≡ (e, err x)) ↔ HasFault e i x)
  evaluate_refused e i observe x = (
    (
      evaluate-HasFault e i observe x,
      λ h.
          ap (λ (r : PolicyEngine F × Result PolicyError (PolicyDecision F)). r.1)
            (HasFault-evaluate e i observe x h),
    ),
    (
      λ h.
          evaluate-HasFault e i observe x
            (ap (λ (r : PolicyEngine F × Result PolicyError (PolicyDecision F)). r.1) h),
      HasFault-evaluate e i observe x,
    ),
  )

  -- An evaluation keeps the configuration; it changes the current state only along an edge of the
  -- diagram, and then reports the change.
  pub evaluate-⟶ :
      (e : PolicyEngine F) (i : PolicyInput F) (observe : Bool)
      → let next = (evaluate fl e i observe).0 in
        (next.config ≡ e.config)
        × ((next.state.current ≡ e.state.current) ⊎ (e.state.current ⟶ next.state.current))
  unfolding evaluate decide
  evaluate-⟶ e i observe = ground (arith, transition-⟶ fl e.state i e.config)

  -- The current states along a run, the newest first.
  abbrev pub trajectory : PolicyEngine F → List (PolicyInput F × Bool) → List PressureState
  trajectory e [] = []
  trajectory e (i ∷ older) = (run fl e (i ∷ older)).state.current ∷ trajectory e older

  -- A severe state is left only through `stabilizing`: along a run that never is in that state, a
  -- severe state stays severe.
  pub run-Severe :
      (e : PolicyEngine F) (h : List (PolicyInput F × Bool))
      → Severe e.state.current
      → All (λ s. s ≢ stabilizing) (trajectory e h)
      → Severe (run fl e h).state.current
  unfolding run
  run-Severe e [] v a = v
  run-Severe e ((i, o) ∷ h) v a =
      let ih = run-Severe e h v a.1 in
      elim (evaluate-⟶ (run fl e h) i o).1 [
        | inl same ↦ subst Severe (sym same) ih
        | inr edge ↦ Severe-edge edge ih a.0
      ]
