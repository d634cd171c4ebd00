-- ===== src/Classifier/Stabilize/Progress.antt =====
-- A class that keeps coming is published (crates/classifier/src/stabilize.rs).
use mathlib.Core.Path.{subst}
use nemor.Base.{
  ℕ, suc, ◌≤◌, ◌<◌, ◌≡◌, sym, ◌⊎◌, inl, inr, true, Option, none, some, List, [], ◌∷◌, arith, All,
  length, Option-cases, u32_max,
}
use nemor.Base.Integer.{ℤ}
use nemor.Classifier.Model.{
  WorkloadClass, WorkloadDecision, ClassificationOutcome, classified, unclassified,
}
use nemor.Classifier.Stabilize.{
  WorkloadStabilizer, class_eq_iff, next_count, observe_class, observe, observe_all,
}
use nemor.Classifier.Stabilize.Counting.{gives, observe_all-samples}

-- The class is pending with at least `k` outcomes counted, and fewer than are asked for.
abbrev IsPending : WorkloadClass → ℕ → ℕ → Option (WorkloadClass × ℕ) → Type 0
IsPending class k samples none = ⊥
IsPending class k samples (some (c, n)) = (c ≡ class) × (k ≤ n) × (n < samples)

abbrev Advanced : WorkloadClass → ℕ → WorkloadStabilizer → Type 0
Advanced class k s = (s.current ≡ some class) ⊎ IsPending class k s.confirmation_samples s.pending

next_count_pos : (p : Option (WorkloadClass × ℕ)) (class : WorkloadClass) → 1 ≤ next_count p class
unfolding next_count
next_count_pos none class = ground arith
next_count_pos (some (c, n)) class = ground arith

next_count-IsPending :
    (p : Option (WorkloadClass × ℕ)) (class : WorkloadClass) (k samples : ℕ)
    → IsPending class k samples p
    → samples ≤ u32_max
    → suc k ≤ next_count p class
unfolding next_count
next_count-IsPending none class k samples h b = absurd h
next_count-IsPending (some (c, n)) class k samples h b = ground (arith, class_eq_iff c class)

module _ {F : Type 0} where
  -- An outcome of a class that is not current yet makes it current, or pending with its count.
  observe_class-Advanced :
      (s : WorkloadStabilizer) (t : ℤ) (d : WorkloadDecision F) (k : ℕ)
      → k ≤ next_count s.pending d.class
      → Advanced d.class k (observe_class s t d).0
  unfolding observe_class
  observe_class-Advanced s t d k h = elim (Option-cases s.current) [
    | inl e ↦ ground arith
    | inr (c, e) ↦ ground (arith, class_eq_iff c d.class)
  ]

  observe_class-current :
      (s : WorkloadStabilizer) (t : ℤ) (d : WorkloadDecision F)
      → s.current ≡ some d.class
      → (observe_class s t d).0.current ≡ some d.class
  unfolding observe_class
  observe_class-current s t d e = ground arith

  step-Advanced :
      (s : WorkloadStabilizer) (t : ℤ) (d : WorkloadDecision F) (k : ℕ)
      → s.confirmation_samples ≤ u32_max
      → Advanced d.class k s
      → Advanced d.class (suc k) (observe_class s t d).0
  step-Advanced s t d k b (inl e) = inl (observe_class-current s t d e)
  step-Advanced s t d k b (inr p) =
      observe_class-Advanced s t d (suc k)
        (next_count-IsPending s.pending d.class k s.confirmation_samples p b)

  -- Outcomes that all give one class.
  abbrev pub AllGive : WorkloadClass → List (ℤ × ClassificationOutcome F) → Type 0
  AllGive class = All (λ o. gives class o.1 ≡ true)

  step-gives :
      (class : WorkloadClass) (s : WorkloadStabilizer) (t : ℤ) (o : ClassificationOutcome F) (k : ℕ)
      → s.confirmation_samples ≤ u32_max
      → gives class o ≡ true
      → Advanced class k s
      → Advanced class (suc k) (observe s t o).0
  unfolding observe
  step-gives class s t (classified d) k b g a =
      let e : d.class ≡ class = (class_eq_iff d.class class).0 g in
      subst (λ c. Advanced c (suc k) (observe_class s t d).0) e
        (step-Advanced s t d k b (subst (λ c. Advanced c k s) (sym e) a))
  step-gives class s t (unclassified x) k b g a = cc

  first-gives :
      (class : WorkloadClass) (s : WorkloadStabilizer) (t : ℤ) (o : ClassificationOutcome F)
      → gives class o ≡ true
      → Advanced class 1 (observe s t o).0
  unfolding observe
  first-gives class s t (classified d) g =
      subst (λ c. Advanced c 1 (observe_class s t d).0) ((class_eq_iff d.class class).0 g)
        (observe_class-Advanced s t d 1 (next_count_pos s.pending d.class))
  first-gives class s t (unclassified x) g = cc

  observe_all-Advanced :
      (class : WorkloadClass) (s : WorkloadStabilizer) (o : ℤ × ClassificationOutcome F)
      (h : List (ℤ × ClassificationOutcome F))
      → s.confirmation_samples ≤ u32_max
      → AllGive class (o ∷ h)
      → Advanced class (length (o ∷ h)) (observe_all s (o ∷ h))
  unfolding observe_all
  observe_all-Advanced class s (t, o) [] b g = first-gives class s t o g.0
  observe_all-Advanced class s (t, o) (p ∷ h) b g =
      step-gives class (observe_all s (p ∷ h)) t o (length (p ∷ h))
        (subst (λ n. n ≤ u32_max) (sym (observe_all-samples s (p ∷ h))) b) g.0
        (observe_all-Advanced class s p h b g.1)

  -- From any state, a class that at least one and at least `confirmation_samples` outcomes in a row
  -- give is the current class afterwards.
  pub confirmed_is_current :
      (class : WorkloadClass) (s : WorkloadStabilizer) (o : ℤ × ClassificationOutcome F)
      (h : List (ℤ × ClassificationOutcome F))
      → s.confirmation_samples ≤ u32_max
      → AllGive class (o ∷ h)
      → s.confirmation_samples ≤ length (o ∷ h)
      → (observe_all s (o ∷ h)).current ≡ some class
  confirmed_is_current class s o h b g l =
      finish (observe_all s (o ∷ h)).pending (observe_all-samples s (o ∷ h))
        (observe_all-Advanced class s o h b g)
    where
      finish :
          (p : Option (WorkloadClass × ℕ))
          → (observe_all s (o ∷ h)).confirmation_samples ≡ s.confirmation_samples
          → ((observe_all s (o ∷ h)).current ≡ some class)
            ⊎ IsPending class (length (o ∷ h)) (observe_all s (o ∷ h)).confirmation_samples p
          → (observe_all s (o ∷ h)).current ≡ some class
      finish p e (inl c) = c
      finish none e (inr a) = absurd a
      finish (some (c, n)) e (inr a) = absurd (omega arith)
