-- ===== src/Tiering/Boot/Trace/Progress.antt =====
-- The stages that a sequence of operations goes through
-- (crates/tiering/src/boot_validation_v6.rs).
use nemor.Base.{◌≡◌, refl, true, String, List, Bool-cases, inl, inr, Result}
use nemor.Tiering.Boot.Types.{BootValidationError, PreparedManifest}
use nemor.Tiering.Boot.Stages.{TransactionStage, legal_transition}
use nemor.Tiering.Boot.Stages.Paths.{LegalPath, here, next}
use nemor.Tiering.Boot.Interface.{BootLifecycleBackend, Serializer}
use nemor.Tiering.Boot.Ledger.{
  DurableTransaction, DurableTransactionPayload, is_sealed, validate, transition, record_intent,
  complete_last, record_evidence, mark_failed,
}
use nemor.Tiering.Boot.Ledger.Fields.{validate-same, complete_last-stage}
use nemor.Tiering.Boot.Lifecycle.{World, seal_of}
use nemor.Tiering.Boot.Lifecycle.Stable.{IsStable}
use nemor.Tiering.Boot.Trace.{LifecycleOperation, perform_all, perform_all-keeps}

module _ (seal : DurableTransactionPayload → String) (s : TransactionStage) where
  abbrev Reached : DurableTransaction → Type 0
  Reached tx = LegalPath s tx.payload.stage

  Reached-validate : (tx : DurableTransaction) → Reached tx → Reached (validate seal tx).0
  Reached-validate tx p = rw (validate-same seal tx) p

  Reached-transition :
      (to : TransactionStage) (tx : DurableTransaction)
      → Reached tx
      → Reached (transition seal to tx).0
  unfolding transition validate
  Reached-transition to tx p = elim (Bool-cases (is_sealed seal tx)) [
    | inl sealed ↦ elim (Bool-cases (legal_transition tx.payload.stage to)) [
      | inl legal ↦ rw (sealed, legal) (next p legal)
      | inr illegal ↦ rw (sealed, illegal) p
    ]
    | inr broken ↦ rw broken p
  ]

  Reached-complete_last :
      (hash : String) (tx : DurableTransaction)
      → Reached tx
      → Reached (complete_last seal hash tx).0
  Reached-complete_last hash tx p = rw (complete_last-stage seal hash tx) p

  to_failed : (t : TransactionStage) → legal_transition t TransactionStage.failed ≡ true
  unfolding legal_transition
  to_failed t = refl

  pub Reached-IsStable : IsStable seal Reached
  unfolding record_intent record_evidence mark_failed
  Reached-IsStable = record {
    validated = Reached-validate;
    moved = Reached-transition;
    intended = λ _ _ _ p. p;
    completed = Reached-complete_last;
    evidenced = λ _ _ _ _ p. p;
    swapped = λ _ _ p. p;
    summarised = λ _ _ p. p;
    failed = λ _ _ tx p. next p (to_failed tx.payload.stage);
  }

module _ {B : Type 0} (backend : BootLifecycleBackend B) (serial : Serializer)
    (check_manifest : PreparedManifest → Result BootValidationError (Unit {0})) where
  -- Whatever the backend does and whichever operations are called, in whatever order, and whether
  -- they succeed or fail, the stage of the transaction only moves along legal transitions.
  pub perform_all-LegalPath :
      (manifest : PreparedManifest) (operations : List LifecycleOperation) (w : World B)
      → LegalPath w.0.payload.stage
          (perform_all backend serial check_manifest manifest operations w).0.payload.stage
  perform_all-LegalPath manifest operations w =
      perform_all-keeps backend serial check_manifest manifest
        (Reached-IsStable (seal_of backend serial) w.0.payload.stage) operations w here
