-- ===== src/Examples/Classifier.antt =====
-- A stabilizer that asks for three samples (crates/classifier).
use nemor.Base.{ℕ, ◌≤◌, ◌≡◌, refl, none, some, List, [], ◌∷◌, arith}
use nemor.Base.Integer.{ℤ, pos}
use nemor.Classifier.Model.{
  WorkloadClass, WorkloadExplanation, ClassificationOutcome, classified, WorkloadTransition,
}
use nemor.Classifier.Stabilize.{
  WorkloadStabilizer, new, observe, observe_all, observe_class, class_eq, next_count,
}
use nemor.Classifier.Stabilize.Counting.{published_needs_streak, streak}
use nemor.Classifier.Stabilize.Progress.{confirmed_is_current}

abbrev why : WorkloadExplanation ℕ
why = record {
  rule_version = "rules";
  selected_class = "gaming";
  confidence = 90;
  evidence = [];
  rejected_candidates = [];
  protection_reasons = [];
}

abbrev game : ClassificationOutcome ℕ
game = classified (record { class = WorkloadClass.gaming; confidence = 90; explanation = why })

abbrev history : List (ℤ × ClassificationOutcome ℕ)
history = (pos 2, game) ∷ (pos 1, game) ∷ []

abbrev two_seen : WorkloadStabilizer
two_seen = record {
  confirmation_samples = 3;
  current = none;
  pending = some (WorkloadClass.gaming, 2);
}

abbrev published : WorkloadTransition ℕ
published = record {
  timestamp_ns = pos 3;
  previous_class = none;
  new_class = WorkloadClass.gaming;
  confidence = 90;
  explanation = why;
}

published_needs_streak_example : 3 ≤ streak WorkloadClass.gaming ((pos 3, game) ∷ history)
unfolding new observe_all observe observe_class next_count class_eq
published_needs_streak_example =
    published_needs_streak 3 history (pos 3) game {x = published} refl (λ e. absurd (cc))

confirmed_is_current_example :
    (observe_all (new 3) ((pos 3, game) ∷ history)).current ≡ some WorkloadClass.gaming
unfolding new class_eq
confirmed_is_current_example =
    confirmed_is_current WorkloadClass.gaming (new 3) (pos 3, game) history (omega arith)
      (refl, (refl, (refl, tt))) (omega arith)
