-- ===== src/Tiering/Boot/Trace/Publication.antt =====
-- The evidence that the last step of the clean-up looks for
-- (crates/tiering/src/boot_validation_v6.rs).
use nemor.Base.{◌≡◌, refl, false, String, none, List, is_ok, Result, ok, err}
use nemor.Base.Proc.{Proc, resume}
use nemor.Base.Exec.{◌>>=◌, query, need}
use nemor.Base.Exec.Keeps.{Fails, Fails-bind}
use nemor.Tiering.Boot.Types.{BootValidationError, PreparedManifest}
use nemor.Tiering.Boot.Observations.{PreflightObservation}
use nemor.Tiering.Boot.Interface.{BootLifecycleBackend, Serializer}
use nemor.Tiering.Boot.Ledger.{
  DurableTransaction, DurableTransactionPayload, evidence, record_intent, record_evidence,
  mark_failed, seal,
}
use nemor.Tiering.Boot.Ledger.Fields.{
  validate-same, complete_last-evidence_hashes, transition-evidence_hashes,
}
use nemor.Tiering.Boot.Lifecycle.{World, seal_of}
use nemor.Tiering.Boot.Lifecycle.Stable.{IsStable, unrecorded}
use nemor.Tiering.Boot.Initialize.{
  new_transaction, hand_over, bootstrap, initialize_and_measure_baseline,
}
use nemor.Tiering.Boot.Cleanup.{verify_then_cleanup, publish_authority}
use nemor.Tiering.Boot.Kept.{prove_baseline-Keeps, remove_all-Keeps}
use nemor.Tiering.Boot.Kept.Measurement.{bootstrap-Keeps}
use nemor.Tiering.Boot.Trace.{LifecycleOperation, perform_all, perform_all-keeps}

abbrev Missing : DurableTransaction → Type 0
Missing tx = evidence unrecorded tx.payload.evidence_hashes ≡ none

Missing-IsStable : (seal : DurableTransactionPayload → String) → IsStable seal Missing
unfolding record_intent record_evidence mark_failed evidence
Missing-IsStable seal = record {
  validated = λ tx h. rw (validate-same seal tx) h;
  moved = λ to tx h. rw (transition-evidence_hashes seal to tx) h;
  intended = λ _ _ _ h. h;
  completed = λ hash tx h. rw (complete_last-evidence_hashes seal hash tx) h;
  evidenced = λ name hash tx other h. rw other h;
  swapped = λ _ _ h. h;
  summarised = λ _ _ h. h;
  failed = λ _ _ _ h. h;
}

module _ {B : Type 0} (backend : BootLifecycleBackend B) (serial : Serializer)
    (check_manifest : PreparedManifest → Result BootValidationError (Unit {0})) where
  abbrev Lacks : World B → Type 0
  Lacks w = Missing w.0

  publish_authority-Fails :
      (manifest : PreparedManifest) → Fails Lacks (publish_authority backend serial manifest)
  unfolding publish_authority ◌>>=◌ query need
  publish_authority-Fails manifest = record { at = λ (tx, b) h. rw h }

  verify_then_cleanup-Fails :
      (manifest : PreparedManifest) → Fails Lacks (verify_then_cleanup backend serial manifest)
  unfolding verify_then_cleanup
  verify_then_cleanup-Fails manifest =
      let stable = Missing-IsStable (seal_of backend serial) in
      Fails-bind _ _ (prove_baseline-Keeps backend serial check_manifest stable manifest) λ _.
        Fails-bind _ _ (remove_all-Keeps backend serial check_manifest stable manifest)
          λ _. publish_authority-Fails manifest

  abbrev Handed : B × Result BootValidationError DurableTransaction → Type 0
  Handed (b, ok tx) = Missing tx
  Handed (b, err e) = Unit {0}

  Handed-resume :
      (f : Unit {0} → Proc B BootValidationError DurableTransaction)
      (r : B × Result BootValidationError (Unit {0}))
      → ((b : B) → Handed (f tt b))
      → Handed (resume f r)
  Handed-resume f (b, ok _) k = k b
  Handed-resume f (b, err e) k = tt

  Handed-bind :
      (m : Proc B BootValidationError (Unit {0}))
      (f : Unit {0} → Proc B BootValidationError DurableTransaction) (b : B)
      → ((b : B) → Handed (f tt b))
      → Handed ((m >>= f) b)
  unfolding ◌>>=◌
  Handed-bind m f b k = Handed-resume f (m b) k

  Handed-hand_over :
      (r : World B × Result BootValidationError (Unit {0})) → Lacks r.0 → Handed (hand_over r)
  Handed-hand_over ((tx, b), ok _) h = h
  Handed-hand_over ((tx, b), err e) h = tt

  new_transaction-Missing :
      (manifest : PreparedManifest) (boot_id : String)
      → Missing (new_transaction backend serial manifest boot_id)
  unfolding new_transaction evidence seal
  new_transaction-Missing manifest boot_id = refl

  Handed-initialize :
      (manifest : PreparedManifest) (root_preflight : PreflightObservation) (boot_id : String)
      (b : B)
      → Handed (
          initialize_and_measure_baseline backend serial check_manifest manifest root_preflight
            boot_id b)
  unfolding initialize_and_measure_baseline
  Handed-initialize manifest root_preflight boot_id b =
      let start = new_transaction backend serial manifest boot_id in
      let kept =
        bootstrap-Keeps backend serial (Missing-IsStable (seal_of backend serial)) manifest
          root_preflight in
      Handed-bind _ _ b λ b. Handed-bind _ _ b λ b.
        Handed-hand_over (bootstrap backend serial manifest root_preflight (start, b))
          (kept.at (start, b) (new_transaction-Missing manifest boot_id))

  -- A transaction that the first operation handed over can never be cleaned up: whatever operations
  -- come between, the clean-up fails.
  pub initialized-never_cleaned :
      (manifest : PreparedManifest) (root_preflight : PreflightObservation) (boot_id : String)
      (b b' : B) (tx : DurableTransaction) (operations : List LifecycleOperation)
      → initialize_and_measure_baseline backend serial check_manifest manifest root_preflight
          boot_id b
        ≡ (b', ok tx)
      → is_ok
          (verify_then_cleanup backend serial manifest
            (perform_all backend serial check_manifest manifest operations (tx, b'))).1
        ≡ false
  initialized-never_cleaned manifest root_preflight boot_id b b' tx operations e =
      let start = rw e at (Handed-initialize manifest root_preflight boot_id b) in
      (verify_then_cleanup-Fails manifest).at _ (
        perform_all-keeps backend serial check_manifest manifest
          (Missing-IsStable (seal_of backend serial)) operations (tx, b') start)
