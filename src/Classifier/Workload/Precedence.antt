-- ===== src/Classifier/Workload/Precedence.antt =====
-- Which candidate is selected (crates/classifier/src/workload.rs).
use mathlib.Core.Path.{subst}
use nemor.Base.{
  ℕ, zero, suc, ◌≤◌, ◌<◌, ◌≡◌, ◌≢◌, ◌⊎◌, inl, inr, refl, sym, ap, ◌∙◌, true, false, ◌&&◌, Option,
  none, some, List, [], ◌∷◌, All, Any, find, arith, Bool-cases, Option-cases,
}
use nemor.Base.Float.{Float}
use nemor.Common.Config.{ClassificationConfig, PressureConfig}
use nemor.Collector.System.{SystemSample}
use nemor.Classifier.Model.{
  WorkloadClass, ProcessClassification, ClassificationOutcome, classified, unclassified,
}
use nemor.Classifier.Stabilize.{class_eq, class_eq_iff}
use nemor.Classifier.Signals.{Candidate}
use nemor.Classifier.Workload.{precedence, candidates, select, or_else, outcome_of, classify}

-- The place of a class in the order, the first to be selected at 0.
abbrev pub place : WorkloadClass → ℕ
place WorkloadClass.critical_pressure = 0
place WorkloadClass.memory_pressure = 1
place WorkloadClass.gaming_background_heavy = 2
place WorkloadClass.gaming = 3
place WorkloadClass.virtualization = 4
place WorkloadClass.browser_heavy = 5
place WorkloadClass.development = 6
place WorkloadClass.desktop = 7
place WorkloadClass.idle = 8

class_at : ℕ → WorkloadClass
class_at zero = WorkloadClass.critical_pressure
class_at (suc zero) = WorkloadClass.memory_pressure
class_at (suc (suc zero)) = WorkloadClass.gaming_background_heavy
class_at (suc (suc (suc zero))) = WorkloadClass.gaming
class_at (suc (suc (suc (suc zero)))) = WorkloadClass.virtualization
class_at (suc (suc (suc (suc (suc zero))))) = WorkloadClass.browser_heavy
class_at (suc (suc (suc (suc (suc (suc zero)))))) = WorkloadClass.development
class_at (suc (suc (suc (suc (suc (suc (suc zero))))))) = WorkloadClass.desktop
class_at (suc (suc (suc (suc (suc (suc (suc (suc n)))))))) = WorkloadClass.idle

class_at-place : (c : WorkloadClass) → class_at (place c) ≡ c
unfolding class_at
class_at-place WorkloadClass.critical_pressure = refl
class_at-place WorkloadClass.memory_pressure = refl
class_at-place WorkloadClass.gaming_background_heavy = refl
class_at-place WorkloadClass.gaming = refl
class_at-place WorkloadClass.virtualization = refl
class_at-place WorkloadClass.browser_heavy = refl
class_at-place WorkloadClass.development = refl
class_at-place WorkloadClass.desktop = refl
class_at-place WorkloadClass.idle = refl

place_inj : (a b : WorkloadClass) → place a ≡ place b → a ≡ b
place_inj a b e = sym (class_at-place a) ∙ ap class_at e ∙ class_at-place b

place-class_eq : (a b : WorkloadClass) → class_eq a b ≡ false → place a ≢ place b
place-class_eq a b h e = absurd (ground (arith, (class_eq_iff a b).1 (place_inj a b e)))

-- The classes stand in their places, from `n` on.
abbrev Placed : ℕ → List WorkloadClass → Type 0
Placed n [] = n ≡ 9
Placed n (c ∷ cs) = (place c ≡ n) × Placed (suc n) cs

place-lt : (c : WorkloadClass) → place c < 9
place-lt c = ground arith

module _ {F : Type 0} (fl : Float F) where
  -- A candidate that lacks confidence, or comes at the place `n` or later.
  abbrev Later : F → ℕ → Candidate F → Type 0
  Later minimum n c = (fl.le minimum c.confidence ≡ false) ⊎ (n ≤ place c.class)

  Later-still :
      (minimum : F) (class : WorkloadClass) (c : Candidate F)
      → Later minimum (place class) c
      → (class_eq c.class class && fl.le minimum c.confidence) ≡ false
      → Later minimum (suc (place class)) c
  Later-still minimum class c (inl a) h = inl a
  Later-still minimum class c (inr l) h = elim (Bool-cases (fl.le minimum c.confidence)) [
    | inr p ↦ inl p
    | inl p ↦
        let other : class_eq c.class class ≡ false = ground (arith, p, h) in
        inr (omega (arith, l, place-class_eq c.class class other))
  ]

  no_more :
      (minimum : F) (class : WorkloadClass) (cs : List (Candidate F))
      → All (Later minimum (place class)) cs
      → find (λ c. class_eq c.class class && fl.le minimum c.confidence) cs ≡ none
      → All (Later minimum (suc (place class))) cs
  no_more minimum class [] a h = tt
  no_more minimum class (c ∷ cs) (a, rest) h =
      elim (Bool-cases (class_eq c.class class && fl.le minimum c.confidence)) [
        | inl p ↦ absurd (ground (arith, p, h))
        | inr p ↦
            (Later-still minimum class c a p, no_more minimum class cs rest (ground (arith, p, h)))
      ]

  found :
      (minimum : F) (class : WorkloadClass) (cs : List (Candidate F)) {c : Candidate F}
      → find (λ c. class_eq c.class class && fl.le minimum c.confidence) cs ≡ some c
      → (c.class ≡ class) × (fl.le minimum c.confidence ≡ true) × Any (λ y. y ≡ c) cs
  found minimum class [] h = absurd (cc)
  found minimum class (x ∷ cs) {c = c} h =
      elim (Bool-cases (class_eq x.class class && fl.le minimum x.confidence)) [
        | inr p ↦
            let (a, b, m) = found minimum class cs {c = c} (ground (arith, p, h)) in (a, b, inr m)
        | inl p ↦
            let e : x ≡ c = ground (arith, p, h) in
            let (a, b) =
              subst (λ (y : Candidate F). (y.class ≡ class) × (fl.le minimum y.confidence ≡ true)) e
                ((class_eq_iff x.class class).0 (ground (arith, p)), ground (arith, p)) in
            (a, b, inl e)
      ]

  -- What the selection is to be: one of the candidates, confident, and no confident candidate comes
  -- before it; nothing is selected only where no candidate is confident.
  abbrev pub IsFirst : F → List (Candidate F) → Option (Candidate F) → Type 0
  IsFirst minimum cs none = All (λ c. fl.le minimum c.confidence ≡ false) cs
  IsFirst minimum cs (some s) =
      Any (λ c. c ≡ s) cs
      × (fl.le minimum s.confidence ≡ true)
      × All (λ c. (fl.le minimum c.confidence ≡ false) ⊎ (place s.class ≤ place c.class)) cs

  none_left :
      (minimum : F) (cs : List (Candidate F))
      → All (Later minimum 9) cs
      → All (λ c. fl.le minimum c.confidence ≡ false) cs
  none_left minimum [] a = tt
  none_left minimum (c ∷ cs) (inl a, rest) = (a, none_left minimum cs rest)
  none_left minimum (c ∷ cs) (inr l, rest) = absurd (omega (arith, place-lt c.class))

  select-IsFirst :
      (minimum : F) (n : ℕ) (classes : List WorkloadClass) (cs : List (Candidate F))
      → Placed n classes
      → All (Later minimum n) cs
      → IsFirst minimum cs (select fl minimum classes cs)
  unfolding select
  select-IsFirst minimum n [] cs p a =
      none_left minimum cs (subst (λ k. All (Later minimum k) cs) p a)
  select-IsFirst minimum n (class ∷ classes) cs (p, q) a =
      let b = subst (λ k. All (Later minimum k) cs) (sym p) a in
      elim (Option-cases (find (λ c. class_eq c.class class && fl.le minimum c.confidence) cs)) [
        | inr (s, e) ↦
            let (same, enough, member) = found minimum class cs {c = s} e in
            subst (λ o. IsFirst minimum cs (or_else fl o (select fl minimum classes cs))) (sym e)
              (member, enough, subst (λ k. All (Later minimum (place k)) cs) (sym same) b)
        | inl e ↦
            subst (λ o. IsFirst minimum cs (or_else fl o (select fl minimum classes cs))) (sym e)
              (select-IsFirst minimum (suc n) classes cs q
                (subst (λ k. All (Later minimum (suc k)) cs) p (no_more minimum class cs b e)))
      ]

  All-Later : (minimum : F) (cs : List (Candidate F)) → All (Later minimum 0) cs
  All-Later minimum [] = tt
  All-Later minimum (c ∷ cs) = (inr (omega arith), All-Later minimum cs)

  -- The class and the confidence of an outcome, as a candidate would have them.
  abbrev pub Agrees : ClassificationOutcome F → Option (Candidate F) → Type 0
  Agrees (classified d) none = ⊥
  Agrees (classified d) (some s) = (d.class ≡ s.class) × (d.confidence ≡ s.confidence)
  Agrees (unclassified e) none = Unit {0}
  Agrees (unclassified e) (some s) = ⊥

  outcome_of-Agrees : (o : Option (Candidate F)) (r : _) (p : _) → Agrees (outcome_of fl o r p) o
  unfolding outcome_of
  outcome_of-Agrees none r p = tt
  outcome_of-Agrees (some s) r p = (refl, refl)

  -- The workload is given the class and the confidence of one of its candidates, which is confident
  -- enough and which no confident candidate precedes; or it is given no class, and then no
  -- candidate is confident enough.
  pub classify-IsFirst :
      (system : Option (SystemSample F)) (processes : List (ProcessClassification F))
      (c : ClassificationConfig F) (p : PressureConfig F)
      → (o : Option (Candidate F)) × Agrees (classify fl system processes c p) o
        × IsFirst c.minimum_confidence (candidates fl system processes c p) o
  unfolding classify precedence
  classify-IsFirst system processes c p =
      let cs = candidates fl system processes c p in
      (
        select fl c.minimum_confidence precedence cs,
        outcome_of-Agrees (select fl c.minimum_confidence precedence cs) _ _,
        select-IsFirst c.minimum_confidence 0 precedence cs
            (refl, (refl, (refl, (refl, (refl, (refl, (refl, (refl, (refl, refl)))))))))
            (All-Later c.minimum_confidence cs),
      )
