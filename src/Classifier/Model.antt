-- ===== src/Classifier/Model.antt =====
-- The data of the classifier (crates/classifier/src/model.rs).
use nemor.Base.{Bool, true, false, String, Option, none, some, List}
use nemor.Base.Integer.{ℤ}
use nemor.Collector.Samples.{ProcessSample}

pub data ProcessCategory : Type 0 where
  unknown system critical desktop browser development game virtualization background :
      ProcessCategory

pub data ForegroundState : Type 0 where
  foreground background unknown : ForegroundState

pub data WorkloadClass : Type 0 where
  idle desktop browser_heavy development gaming gaming_background_heavy virtualization
        memory_pressure critical_pressure :
      WorkloadClass

-- The derived `==`.
abbrev pub is_unknown : ProcessCategory → Bool
is_unknown ProcessCategory.unknown = true
is_unknown _ = false

abbrev pub is_foreground : ForegroundState → Bool
is_foreground ForegroundState.foreground = true
is_foreground _ = false

abbrev pub is_background : ForegroundState → Bool
is_background ForegroundState.background = true
is_background _ = false

pub record Evidence (F : Type 0) : Type 0 where
  pub code : String
  pub description : String
  pub observed : String
  pub threshold : Option String
  pub contribution : F

pub record RejectedCandidate (F : Type 0) : Type 0 where
  pub candidate : WorkloadClass
  pub confidence : F
  pub reason : String

pub record WorkloadExplanation (F : Type 0) : Type 0 where
  pub rule_version : String
  pub selected_class : String
  pub confidence : F
  pub evidence : List (Evidence F)
  pub rejected_candidates : List (RejectedCandidate F)
  pub protection_reasons : List String

pub record ProcessClassification (F : Type 0) : Type 0 where
  pub sample : ProcessSample F
  pub executable : String
  pub command_signature : String
  pub application_name : Option String
  pub category : ProcessCategory
  pub is_game : Bool
  pub is_critical : Bool
  pub protected : Bool
  pub protected_game : Bool
  pub cold_candidate : Bool
  pub foreground : ForegroundState
  pub foreground_confidence : F
  pub confidence : F
  pub reasons : List String

pub record WorkloadDecision (F : Type 0) : Type 0 where
  pub class : WorkloadClass
  pub confidence : F
  pub explanation : WorkloadExplanation F

pub data ClassificationOutcome (F : Type 0) : Type 0 where
  classified : WorkloadDecision F → ClassificationOutcome F
  unclassified : WorkloadExplanation F → ClassificationOutcome F

module _ {F : Type 0} where
  -- `ClassificationOutcome::class` and `explanation`.
  abbrev pub outcome_class : ClassificationOutcome F → Option WorkloadClass
  outcome_class (classified decision) = some decision.class
  outcome_class (unclassified _) = none

  abbrev pub outcome_explanation : ClassificationOutcome F → WorkloadExplanation F
  outcome_explanation (classified decision) = decision.explanation
  outcome_explanation (unclassified explanation) = explanation

pub record WorkloadTransition (F : Type 0) : Type 0 where
  pub timestamp_ns : ℤ
  pub previous_class : Option WorkloadClass
  pub new_class : WorkloadClass
  pub confidence : F
  pub explanation : WorkloadExplanation F
