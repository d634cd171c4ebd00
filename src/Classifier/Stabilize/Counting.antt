-- ===== src/Classifier/Stabilize/Counting.antt =====
-- What the stabilizer publishes, and when (crates/classifier/src/stabilize.rs).
use mathlib.Core.Path.{subst}
use nemor.Base.{
  ◌∙◌, Bool-cases, ℕ, suc, ◌≤◌, ◌≡◌, refl, ◌≢◌, inl, inr, Bool, true, false, Option, none, some,
  List, [], ◌∷◌, arith, if◌then◌else◌,
}
use nemor.Base.Integer.{ℤ}
use nemor.Classifier.Model.{
  WorkloadClass, ClassificationOutcome, outcome_class, classified, unclassified, WorkloadTransition,
  WorkloadDecision,
}
use nemor.Classifier.Stabilize.{
  WorkloadStabilizer, class_eq, class_eq_iff, new, next_count, observe_class, observe, observe_all,
}

pub class_eq_self : (class : WorkloadClass) → class_eq class class ≡ true
class_eq_self class = (class_eq_iff class class).1 refl

module _ {F : Type 0} where
  abbrev pub gives : WorkloadClass → ClassificationOutcome F → Bool
  gives class (classified decision) = class_eq decision.class class
  gives class (unclassified _) = false

  -- How many of the newest outcomes in a row gave the class.
  abbrev pub streak : WorkloadClass → List (ℤ × ClassificationOutcome F) → ℕ
  streak class [] = 0
  streak class ((_, outcome) ∷ older) =
      let rest = suc (streak class older) in if gives class outcome then rest else 0

-- The pending count is backed by outcomes of the pending class in a row.
module _ {F : Type 0} where
  abbrev Counted : Option (WorkloadClass × ℕ) → List (ℤ × ClassificationOutcome F) → Type 0
  Counted none h = Unit {0}
  Counted (some (class, count)) h = count ≤ streak class h

  next_count-le :
      (p : Option (WorkloadClass × ℕ)) (class : WorkloadClass)
      (h : List (ℤ × ClassificationOutcome F))
      → Counted p h
      → next_count p class ≤ suc (streak class h)
  unfolding next_count
  next_count-le none class h k = omega arith
  next_count-le (some (c, count)) class h k = elim (Bool-cases (class_eq c class)) [
    | inl same ↦
        let e : c ≡ class = (class_eq_iff c class).0 same in
        rw same (omega (arith, subst (λ x. count ≤ streak x h) e k))
    | inr other ↦ rw other (omega arith)
  ]

  observe_class-Counted :
      (s : WorkloadStabilizer) (t : ℤ) (d : WorkloadDecision F)
      (h : List (ℤ × ClassificationOutcome F))
      → Counted s.pending h
      → Counted (observe_class s t d).0.pending ((t, classified d) ∷ h)
  unfolding observe_class
  observe_class-Counted s t d h k =
      ground (arith, next_count-le s.pending d.class h k, class_eq_self d.class)

  observe_all-Counted :
      (n : ℕ) (h : List (ℤ × ClassificationOutcome F)) → Counted (observe_all (new n) h).pending h
  unfolding observe_all observe new
  observe_all-Counted n [] = tt
  observe_all-Counted n ((t, classified d) ∷ h) =
      observe_class-Counted (observe_all (new n) h) t d h (observe_all-Counted n h)
  observe_all-Counted n ((t, unclassified e) ∷ h) = tt

  observe_class-published :
      (s : WorkloadStabilizer) (t : ℤ) (d : WorkloadDecision F)
      (h : List (ℤ × ClassificationOutcome F)) {x : WorkloadTransition F}
      → Counted s.pending h
      → (observe_class s t d).1 ≡ some x
      → x.new_class ≢ WorkloadClass.critical_pressure
      → s.confirmation_samples ≤ streak x.new_class ((t, classified d) ∷ h)
  unfolding observe_class
  observe_class-published s t d h k e n = ground (
    arith,
    next_count-le s.pending d.class h k,
    class_eq_self d.class,
    class_eq_iff d.class WorkloadClass.critical_pressure,
  )

  pub observe_class-samples :
      (s : WorkloadStabilizer) (t : ℤ) (d : WorkloadDecision F)
      → (observe_class s t d).0.confirmation_samples ≡ s.confirmation_samples
  unfolding observe_class
  observe_class-samples s t d = ground arith

  pub observe_all-samples :
      (s : WorkloadStabilizer) (h : List (ℤ × ClassificationOutcome F))
      → (observe_all s h).confirmation_samples ≡ s.confirmation_samples
  unfolding observe_all observe
  observe_all-samples s [] = refl
  observe_all-samples s ((t, classified d) ∷ h) =
      observe_class-samples (observe_all s h) t d ∙ observe_all-samples s h
  observe_all-samples s ((t, unclassified e) ∷ h) = observe_all-samples s h

  -- A stabilizer that starts empty and has seen the history `h` publishes a class other than
  -- `critical_pressure` only if at least `confirmation_samples` newest outcomes in a row, the one
  -- just observed included, gave that class.
  pub published_needs_streak :
      (n : ℕ) (h : List (ℤ × ClassificationOutcome F)) (t : ℤ) (o : ClassificationOutcome F)
      {x : WorkloadTransition F}
      → (observe (observe_all (new n) h) t o).1 ≡ some x
      → x.new_class ≢ WorkloadClass.critical_pressure
      → n ≤ streak x.new_class ((t, o) ∷ h)
  unfolding observe
  published_needs_streak n h t (classified d) {x} e c =
      let s = observe_all (new n) h in
      subst (λ m. m ≤ streak x.new_class ((t, classified d) ∷ h))
        (observe_all-samples (new n) h ∙ unfold new in refl)
        (observe_class-published s t d h (observe_all-Counted n h) e c)
  published_needs_streak n h t (unclassified _) e c = cc

  -- Every published transition names a class that differs from the one before, which it records,
  -- and the stabilizer then holds the new class with nothing pending.
  pub observe_published :
      (s : WorkloadStabilizer) (t : ℤ) (o : ClassificationOutcome F) {x : WorkloadTransition F}
      → (observe s t o).1 ≡ some x
      → (x.previous_class ≡ s.current)
        × (s.current ≢ some x.new_class)
        × ((observe s t o).0.current ≡ some x.new_class)
        × ((observe s t o).0.pending ≡ none)
        × (outcome_class o ≡ some x.new_class)
  unfolding observe observe_class
  observe_published s t (classified d) e = ground (arith, class_eq_self d.class)
  observe_published s t (unclassified _) e = cc

  -- Without a publication the current class stays.
  pub observe_silent :
      (s : WorkloadStabilizer) (t : ℤ) (o : ClassificationOutcome F)
      → (observe s t o).1 ≡ none
      → (observe s t o).0.current ≡ s.current
  unfolding observe observe_class
  observe_silent s t (classified d) e = ground arith
  observe_silent s t (unclassified _) e = refl
