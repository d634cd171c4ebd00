-- ===== src/Examples/Workload.antt =====
-- A system with little memory left and no processes (crates/classifier).
use nemor.Base.{ℕ, ◌≤◌, ◌≡◌, ◌⊎◌, refl, true, false, Option, none, some, [], ◌∷◌, All, leb, decimal}
use nemor.Base.Integer.{pos}
use nemor.Base.Float.{whole}
use nemor.Common.Config.{ClassificationConfig}
use nemor.Collector.System.{SystemSample, no_swap}
use nemor.Classifier.Model.{WorkloadClass, WorkloadTransition}
use nemor.Classifier.Stabilize
use nemor.Classifier.Stabilize.{observe, observe_class, next_count, class_eq}
use nemor.Classifier.Workload
use nemor.Classifier.Signals
use nemor.Classifier.Signals.{Candidate}
use nemor.Classifier.Rules
use nemor.Classifier.Workload.{candidates, precedence, select, outcome_of}
use nemor.Classifier.Workload.Precedence.{place, Agrees, IsFirst, classify-IsFirst}
use nemor.Classifier.Pipeline.{new, evaluate}
use nemor.Classifier.Pipeline.Publication.{evaluate_publishes_first}
use nemor.Examples.Policy.{config as pressure}

abbrev low : SystemSample ℕ
low = record {
  timestamp_ns = pos 1;
  mem_total_bytes = 1000;
  mem_available_bytes = 50;
  anon_bytes = none;
  file_cache_bytes = none;
  slab_bytes = none;
  swap_used_bytes = none;
  swap_in_pages = none;
  swap_out_pages = none;
  major_faults = none;
  minor_faults = none;
  pgscan = none;
  pgsteal = none;
  workingset_refault = none;
  psi_memory = none;
  psi_cpu = none;
  psi_io = none;
  swap = record { entries = []; configuration = no_swap };
  zram = record { available = false; devices = [] };
  zswap = record { available = false; enabled = none; stored_pages = none; pool_bytes = none };
  capabilities_unavailable = [];
}

abbrev classification : ClassificationConfig ℕ
classification = record {
  interval_ms = 1000;
  minimum_confidence = 1;
  confirmation_samples = 3;
  browser_heavy_process_count = 5;
  browser_heavy_memory_percent = 20;
  virtualization_memory_percent = 20;
  gaming_background_memory_percent = 20;
  protected_executables = [];
  critical_executables = [];
  game_executables = [];
}

abbrev published : WorkloadTransition ℕ
published = record {
  timestamp_ns = pos 1;
  previous_class = none;
  new_class = WorkloadClass.critical_pressure;
  confidence = 1;
  explanation = record {
    rule_version = "heuristic-v1";
    selected_class = "critical_pressure";
    confidence = 1;
    evidence =
        record {
          code = "critical_memory_pressure";
          description = "deterministic evidence for critical_pressure";
          observed = "% available";
          threshold = some "<= 10% or PSI full >= ";
          contribution = 1;
        }
        ∷ [];
    rejected_candidates =
        record {
          candidate = WorkloadClass.memory_pressure;
          confidence = 0;
          reason = "below minimum confidence";
        }
        ∷ record {
          candidate = WorkloadClass.idle;
          confidence = 0;
          reason = "below minimum confidence";
        }
        ∷ [];
    protection_reasons = [];
  };
}

evaluate_publishes_first_example :
    (leb 1 published.confidence ≡ true)
    × All
        (λ (k : Candidate ℕ). (leb 1 k.confidence ≡ false) ⊎ (0 ≤ place k.class))
        (candidates whole (some low) [] classification pressure)
unfolding evaluate new observe Workload.classify outcome_of select precedence candidates
    Rules.idle_candidates Signals.push_candidate Rules.desktop_candidates
    Rules.development_candidates Rules.browser_candidates Rules.virtualization_candidates
    Rules.game_candidates Rules.pressure_candidates Signals.available_at_or_below class_eq
    Signals.candidate decimal Stabilize.new next_count observe_class Signals.class_text
    Signals.memory_percent Workload.protection_reasons Signals.psi_full Signals.psi_some
    Workload.rejected Signals.rss_percent Signals.rss_sum Signals.share
evaluate_publishes_first_example =
    evaluate_publishes_first whole (new classification pressure) (pos 1) (some low) []
      {x = published} refl

classify-IsFirst_example :
    (o : Option (Candidate ℕ)) × Agrees whole
      (Workload.classify whole (some low) [] classification pressure)
      o
    × IsFirst whole 1 (candidates whole (some low) [] classification pressure) o
classify-IsFirst_example = classify-IsFirst whole (some low) [] classification pressure
