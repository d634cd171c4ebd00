-- ===== src/Classifier/Stabilize.antt =====
-- `WorkloadStabilizer` (crates/classifier/src/stabilize.rs): a class is published once it was seen
-- in `confirmation_samples` outcomes in a row. A method returns the new state with its result.
pub mod Counting
pub mod Progress
use nemor.Base.{
  ℕ, zero, suc, ◌≡◌, refl, sym, ap, ◌∙◌, ◌↔◌, Bool, true, false, not, ◌&&◌, Option, none, some,
  List, [], ◌∷◌, arith, ltb, ◌==◌, if◌then◌else◌, is_some_and, saturating_add_u32,
}
use nemor.Base.Integer.{ℤ}
use nemor.Classifier.Model.{
  WorkloadClass, WorkloadDecision, ClassificationOutcome, classified, unclassified,
  WorkloadTransition,
}

-- The derived `==` on classes compares the position of the variant.
abbrev class_index : WorkloadClass → ℕ
class_index WorkloadClass.idle = 0
class_index WorkloadClass.desktop = 1
class_index WorkloadClass.browser_heavy = 2
class_index WorkloadClass.development = 3
class_index WorkloadClass.gaming = 4
class_index WorkloadClass.gaming_background_heavy = 5
class_index WorkloadClass.virtualization = 6
class_index WorkloadClass.memory_pressure = 7
class_index WorkloadClass.critical_pressure = 8

unfoldable pub class_eq : WorkloadClass → WorkloadClass → Bool
class_eq a b = class_index a == class_index b

class_at : ℕ → WorkloadClass
class_at zero = WorkloadClass.idle
class_at (suc zero) = WorkloadClass.desktop
class_at (suc (suc zero)) = WorkloadClass.browser_heavy
class_at (suc (suc (suc zero))) = WorkloadClass.development
class_at (suc (suc (suc (suc zero)))) = WorkloadClass.gaming
class_at (suc (suc (suc (suc (suc zero))))) = WorkloadClass.gaming_background_heavy
class_at (suc (suc (suc (suc (suc (suc zero)))))) = WorkloadClass.virtualization
class_at (suc (suc (suc (suc (suc (suc (suc zero))))))) = WorkloadClass.memory_pressure
class_at (suc (suc (suc (suc (suc (suc (suc (suc n)))))))) = WorkloadClass.critical_pressure

class_at-index : (a : WorkloadClass) → class_at (class_index a) ≡ a
unfolding class_at
class_at-index WorkloadClass.idle = refl
class_at-index WorkloadClass.desktop = refl
class_at-index WorkloadClass.browser_heavy = refl
class_at-index WorkloadClass.development = refl
class_at-index WorkloadClass.gaming = refl
class_at-index WorkloadClass.gaming_background_heavy = refl
class_at-index WorkloadClass.virtualization = refl
class_at-index WorkloadClass.memory_pressure = refl
class_at-index WorkloadClass.critical_pressure = refl

index_eq : (a b : WorkloadClass) → class_index a ≡ class_index b → a ≡ b
index_eq a b e = sym (class_at-index a) ∙ (ap class_at e ∙ class_at-index b)

number_eq : (m n : ℕ) → (m == n) ≡ true → m ≡ n
number_eq m n h = ground arith

number_refl : (m : ℕ) → (m == m) ≡ true
number_refl m = ground arith

pub class_eq_iff : (a b : WorkloadClass) → (class_eq a b ≡ true) ↔ (a ≡ b)
unfolding class_eq
class_eq_iff a b = (
  (λ h. index_eq a b (number_eq (class_index a) (class_index b) h)),
  (λ e. rw e (number_refl (class_index b))),
)

pub record WorkloadStabilizer : Type 0 where
  pub confirmation_samples : ℕ
  pub current : Option WorkloadClass
  pub pending : Option (WorkloadClass × ℕ)

unfoldable pub new : ℕ → WorkloadStabilizer
new confirmation_samples = record {
  confirmation_samples = confirmation_samples;
  current = none;
  pending = none;
}

-- The number of outcomes in a row that gave the class, this one included.
unfoldable pub next_count : Option (WorkloadClass × ℕ) → WorkloadClass → ℕ
next_count none class = 1
next_count (some (c, count)) class = if class_eq c class then saturating_add_u32 count 1 else 1

module _ {F : Type 0} where
  unfoldable pub observe_class :
      WorkloadStabilizer
      → ℤ
      → WorkloadDecision F
      → WorkloadStabilizer × Option (WorkloadTransition F)
  observe_class s timestamp_ns decision =
      let class = decision.class in
      let immediate = class_eq class WorkloadClass.critical_pressure in
      let count = next_count s.pending class in
      if is_some_and s.current (λ c. class_eq c class)
      then (record s { pending = none }, none)
      else if not immediate && ltb count s.confirmation_samples
      then (record s { pending = some (class, count) }, none)
      else (
        record s { current = some class; pending = none },
        some (record {
          timestamp_ns = timestamp_ns;
          previous_class = s.current;
          new_class = class;
          confidence = decision.confidence;
          explanation = decision.explanation;
        }),
      )

  unfoldable pub observe :
      WorkloadStabilizer
      → ℤ
      → ClassificationOutcome F
      → WorkloadStabilizer × Option (WorkloadTransition F)
  observe s timestamp_ns (classified decision) = observe_class s timestamp_ns decision
  observe s timestamp_ns (unclassified _) = (record s { pending = none }, none)

  -- The state after a history of outcomes, the newest first.
  unfoldable pub observe_all :
      WorkloadStabilizer → List (ℤ × ClassificationOutcome F) → WorkloadStabilizer
  observe_all s [] = s
  observe_all s ((timestamp_ns, outcome) ∷ older) =
      (observe (observe_all s older) timestamp_ns outcome).0
