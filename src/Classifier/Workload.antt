-- ===== src/Classifier/Workload.antt =====
-- The classification of the workload (crates/classifier/src/workload.rs): every rule that applies
-- makes a candidate, and the first class in precedence with a confident candidate is selected.
pub mod Precedence
use text.Mathlib.Text.{find?}
use nemor.Base.{
  ℕ, ◌+◌, ◌*◌, ◌%◌, Bool, true, false, not, ◌&&◌, ◌||◌, String, ◌+++◌, Option, none, some, List, [],
  ◌∷◌, ◌++◌, map, length, is_empty, any, all, filter, find, ltb, leb, is_some, is_some_and,
  is_none_or, unwrap_or, decimal, if◌then◌else◌,
}
use nemor.Base.Float.{Float}
use nemor.Common.Config.{ClassificationConfig, PressureConfig}
use nemor.Collector.System.{SystemSample, PsiSample, PsiLine}
use nemor.Classifier.Model.{
  ProcessCategory, ForegroundState, is_foreground, WorkloadClass, Evidence, RejectedCandidate,
  WorkloadExplanation, ProcessClassification, WorkloadDecision, ClassificationOutcome, classified,
  unclassified,
}
use nemor.Classifier.Stabilize.{class_eq}
use nemor.Classifier.Signals.{
  class_text, is_game, is_virtualization, is_browser, is_development, is_interactive, is_no_user,
  is_passive, Candidate, rss_sum, candidate, psi_some, psi_full, available_at_or_below,
  push_candidate, zero_f, at_least_of, share, memory_percent, rss_percent,
}
use nemor.Classifier.Rules.{
  pressure_candidates, game_candidates, virtualization_candidates, browser_candidates,
  development_candidates, desktop_candidates, idle_candidates,
}

abbrev rule_version : String
rule_version = "heuristic-v1"

-- The order in which classes are selected.
unfoldable pub precedence : List WorkloadClass
precedence =
    WorkloadClass.critical_pressure ∷ WorkloadClass.memory_pressure
    ∷ WorkloadClass.gaming_background_heavy ∷ WorkloadClass.gaming ∷ WorkloadClass.virtualization
    ∷ WorkloadClass.browser_heavy ∷ WorkloadClass.development ∷ WorkloadClass.desktop
    ∷ WorkloadClass.idle ∷ []

module _ {F : Type 0} (fl : Float F) where
  unfoldable pub candidates :
      Option (SystemSample F)
      → List (ProcessClassification F)
      → ClassificationConfig F
      → PressureConfig F
      → List (Candidate F)
  candidates system processes c p =
      let c1 = pressure_candidates fl system p in
      let c2 = game_candidates fl system processes c c1 in
      let c3 = virtualization_candidates fl system processes c c2 in
      let c4 = browser_candidates fl system processes c c3 in
      idle_candidates fl processes
        (desktop_candidates fl processes (development_candidates fl processes c4))

  abbrev pub or_else : Option (Candidate F) → Option (Candidate F) → Option (Candidate F)
  or_else none other = other
  or_else (some c) other = some c

  -- The first candidate of the first class that has one with enough confidence.
  unfoldable pub select : F → List WorkloadClass → List (Candidate F) → Option (Candidate F)
  select minimum [] cs = none
  select minimum (class ∷ classes) cs =
      or_else (find (λ c. class_eq c.class class && fl.le minimum c.confidence) cs)
        (select minimum classes cs)

  unfoldable pub rejected :
      F → Option (Candidate F) → List (Candidate F) → List (RejectedCandidate F)
  rejected minimum selected cs =
      map
        (λ c. record {
          candidate = c.class;
          confidence = c.confidence;
          reason =
              if fl.lt c.confidence minimum
              then "below minimum confidence"
              else "lower deterministic precedence";
        })
        (filter (λ c. is_none_or selected (λ s. not (class_eq s.class c.class))) cs)

  -- The reasons of the processes that speak of a protection.
  unfoldable pub protection_reasons : List (ProcessClassification F) → List String
  protection_reasons [] = []
  protection_reasons (p ∷ ps) =
      filter (λ reason. is_some (find? reason "protected")) p.reasons ++ protection_reasons ps

  unfoldable pub outcome_of :
      Option (Candidate F) → List (RejectedCandidate F) → List String → ClassificationOutcome F
  unfolding class_text zero_f
  outcome_of (some s) others reasons = classified (record {
    class = s.class;
    confidence = s.confidence;
    explanation = record {
      rule_version = rule_version;
      selected_class = class_text s.class;
      confidence = s.confidence;
      evidence = s.evidence ∷ [];
      rejected_candidates = others;
      protection_reasons = reasons;
    };
  })
  outcome_of none others reasons = unclassified (record {
    rule_version = rule_version;
    selected_class = "unknown";
    confidence = zero_f fl;
    evidence = [];
    rejected_candidates = others;
    protection_reasons = reasons;
  })

  unfoldable pub classify :
      Option (SystemSample F)
      → List (ProcessClassification F)
      → ClassificationConfig F
      → PressureConfig F
      → ClassificationOutcome F
  classify system processes c p =
      let cs = candidates system processes c p in
      let selected = select c.minimum_confidence precedence cs in
      outcome_of selected (rejected c.minimum_confidence selected cs) (protection_reasons processes)
