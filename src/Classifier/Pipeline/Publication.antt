-- ===== src/Classifier/Pipeline/Publication.antt =====
-- What the classifier publishes rests on the candidates (crates/classifier/src/lib.rs).
use mathlib.Core.Path.{subst}
use nemor.Base.{◌≤◌, ◌≡◌, ◌⊎◌, sym, true, false, Option, none, some, List, All, arith}
use nemor.Base.Integer.{ℤ}
use nemor.Base.Float.{Float}
use nemor.Collector.System.{SystemSample}
use nemor.Classifier.Model.{
  ProcessClassification, ClassificationOutcome, classified, unclassified, WorkloadTransition,
}
use nemor.Classifier.Stabilize.{WorkloadStabilizer, observe, observe_class}
use nemor.Classifier.Signals.{Candidate}
use nemor.Classifier.Workload.{candidates}
use nemor.Classifier.Workload.Precedence.{place, IsFirst, Agrees, classify-IsFirst}
use nemor.Classifier.Pipeline.{Classifier, evaluate}

module _ {F : Type 0} (fl : Float F) where
  -- Of a candidate that is confident, and that no confident one precedes.
  abbrev First : F → List (Candidate F) → WorkloadTransition F → Type 0
  First minimum cs x =
      (fl.le minimum x.confidence ≡ true)
      × All (λ c. (fl.le minimum c.confidence ≡ false) ⊎ (place x.new_class ≤ place c.class)) cs

  published_of :
      (s : WorkloadStabilizer) (t : ℤ) (minimum : F) (cs : List (Candidate F))
      (outcome : ClassificationOutcome F) (o : Option (Candidate F)) {x : WorkloadTransition F}
      → Agrees fl outcome o
      → IsFirst fl minimum cs o
      → (observe s t outcome).1 ≡ some x
      → First minimum cs x
  unfolding observe observe_class
  published_of s t minimum cs (unclassified e) o a f h = absurd (cc)
  published_of s t minimum cs (classified d) none a f h = absurd a
  published_of s t minimum cs (classified d) (some c) {x = x} (a, b) (m, f, g) h =
      let e : x.new_class ≡ c.class = ground (arith, h, a) in
      let k : x.confidence ≡ c.confidence = ground (arith, h, b) in
      (
        subst (λ v. fl.le minimum v ≡ true) (sym k) f,
        subst (λ v. All (λ c. (fl.le minimum c.confidence ≡ false) ⊎ (place v ≤ place c.class)) cs)
            (sym e) g,
      )

  -- A class that an evaluation publishes has at least the minimum confidence, and no candidate with
  -- that confidence precedes it.
  pub evaluate_publishes_first :
      (c : Classifier F) (t : ℤ) (system : Option (SystemSample F))
      (processes : List (ProcessClassification F)) {x : WorkloadTransition F}
      → (evaluate fl c t system processes).2 ≡ some x
      → (fl.le c.classification.minimum_confidence x.confidence ≡ true)
        × All
            (λ k.
              (fl.le c.classification.minimum_confidence k.confidence ≡ false)
              ⊎ (place x.new_class ≤ place k.class))
            (candidates fl system processes c.classification c.pressure)
  unfolding evaluate
  evaluate_publishes_first c t system processes h =
      let (o, a, f) = classify-IsFirst fl system processes c.classification c.pressure in
      published_of c.stabilizer t c.classification.minimum_confidence _ _ o a f h
