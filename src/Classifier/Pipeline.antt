-- ===== src/Classifier/Pipeline.antt =====
-- `Classifier` (crates/classifier/src/lib.rs): the classification of the workload, stabilized. The
-- classification of the processes is an argument, `process::classify_all`.
pub mod Publication
use nemor.Base.{Option, List}
use nemor.Base.Integer.{ℤ}
use nemor.Base.Float.{Float}
use nemor.Common.Config.{ClassificationConfig, PressureConfig}
use nemor.Collector.Samples.{ProcessSample}
use nemor.Collector.System.{SystemSample}
use nemor.Classifier.Model.{
  WorkloadClass, ProcessClassification, ClassificationOutcome, WorkloadTransition,
}
use nemor.Classifier.Stabilize
use nemor.Classifier.Stabilize.{WorkloadStabilizer}
use nemor.Classifier.Workload

pub record Classifier (F : Type 0) : Type 0 where
  pub classification : ClassificationConfig F
  pub pressure : PressureConfig F
  pub stabilizer : WorkloadStabilizer

pub record ClassificationBatch (F : Type 0) : Type 0 where
  pub processes : List (ProcessClassification F)
  pub outcome : ClassificationOutcome F
  pub transition : Option (WorkloadTransition F)

module _ {F : Type 0} where
  unfoldable pub new : ClassificationConfig F → PressureConfig F → Classifier F
  new classification pressure = record {
    classification = classification;
    pressure = pressure;
    stabilizer = Stabilize.new classification.confirmation_samples;
  }

  unfoldable pub current : Classifier F → Option WorkloadClass
  current c = c.stabilizer.current

module _ {F : Type 0} (fl : Float F) where
  unfoldable pub evaluate :
      Classifier F
      → ℤ
      → Option (SystemSample F)
      → List (ProcessClassification F)
      → Classifier F × ClassificationOutcome F × Option (WorkloadTransition F)
  evaluate c timestamp_ns system processes =
      let outcome = Workload.classify fl system processes c.classification c.pressure in
      let r = Stabilize.observe c.stabilizer timestamp_ns outcome in
      (record c { stabilizer = r.0 }, outcome, r.1)

  unfoldable pub classify_preprocessed :
      Classifier F
      → ℤ
      → Option (SystemSample F)
      → List (ProcessClassification F)
      → Classifier F × ClassificationBatch F
  classify_preprocessed c timestamp_ns system processes =
      let r = evaluate c timestamp_ns system processes in
      (r.0, record { processes = processes; outcome = r.1; transition = r.2 })

  unfoldable pub classify :
      (List (ProcessSample F) → ClassificationConfig F → List (ProcessClassification F))
      → Classifier F
      → ℤ
      → Option (SystemSample F)
      → List (ProcessSample F)
      → Classifier F × ClassificationBatch F
  classify classify_all c timestamp_ns system samples =
      classify_preprocessed c timestamp_ns system (classify_all samples c.classification)
