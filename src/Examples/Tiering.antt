-- ===== src/Examples/Tiering.antt =====
-- The boot validation on a small host (crates/tiering).
use nemor.Base.{◌≡◌, refl, true, false, List, [], ◌∷◌, Result, ok, err, is_ok}
use nemor.Tiering.Boot.Stages.{TransactionStage, legal_transition}
use nemor.Tiering.Boot.Stages.Paths.{
  LegalPath, here, next, passes_measured, is_experimental, experimental-passes_measured,
}
use nemor.Tiering.Boot.Types.{BootValidationError}
use nemor.Base.Exec.{◌>>=◌, query, refuse, need}
use nemor.Tiering.Boot.Equality.{is_sha256}
use nemor.Tiering.Boot.Lifecycle.{change}
use nemor.Tiering.Boot.Ledger.{
  DurableTransaction, transition, record_evidence, complete_last, complete_last_of, record_intent,
}
use nemor.Tiering.Boot.Initialize.{new_transaction, initialize_and_measure_baseline}
use nemor.Tiering.Boot.Cleanup.{baseline_proven, verify_then_cleanup}
use nemor.Tiering.Boot.Cleanup.Guard.{proves, unproven-removes_nothing}
use nemor.Tiering.Boot.Trace.{LifecycleOperation, perform_all}
use nemor.Tiering.Boot.Trace.Progress.{perform_all-LegalPath}
use nemor.Tiering.Boot.Trace.Publication.{initialized-never_cleaned}
use nemor.Examples.BootHost.{host, serial, accepts, manifest, preflight}

abbrev tx_of : Result BootValidationError DurableTransaction → DurableTransaction
tx_of (ok tx) = tx
tx_of (err _) = new_transaction host serial manifest "boot-1"

abbrev first : DurableTransaction
first =
    tx_of (initialize_and_measure_baseline host serial accepts manifest preflight "boot-1" false).1

initialized :
    initialize_and_measure_baseline host serial accepts manifest preflight "boot-1" false
    ≡ (false, ok first)
unfolding initialize_and_measure_baseline ◌>>=◌ query refuse need change transition record_evidence
    legal_transition complete_last complete_last_of record_intent is_sha256
initialized = refl

-- The lifecycle up to the return to the baseline.
abbrev round : List LifecycleOperation
round =
    LifecycleOperation.apply
    ∷ (LifecycleOperation.select_one_shot
        ∷ (LifecycleOperation.move_to TransactionStage.experimental_boot_detected ∷ []))

initialized-never_cleaned_example :
    is_ok
      (verify_then_cleanup host serial manifest
        (perform_all host serial accepts manifest round (first, false))).1
    ≡ false
initialized-never_cleaned_example =
    initialized-never_cleaned host serial accepts manifest preflight "boot-1" false false first
      round initialized

perform_all-LegalPath_example :
    LegalPath first.payload.stage
      (perform_all host serial accepts manifest round (first, false)).0.payload.stage
perform_all-LegalPath_example =
    perform_all-LegalPath host serial accepts manifest round (first, false)

to_applying : LegalPath TransactionStage.baseline_measuring TransactionStage.applying
unfolding legal_transition
to_applying = next (next {u = TransactionStage.baseline_measured} here refl) refl

experimental-passes_measured_example : passes_measured to_applying ≡ true
unfolding is_experimental
experimental-passes_measured_example = experimental-passes_measured to_applying refl refl

-- The swapfile is there, and the host shows no restored baseline.
unproven-removes_nothing_example :
    (is_ok (verify_then_cleanup host serial manifest (first, true)).1 ≡ false)
    × ((verify_then_cleanup host serial manifest (first, true)).0.1 ≡ true)
unfolding proves baseline_proven
unproven-removes_nothing_example =
    unproven-removes_nothing host serial manifest {P = λ b. b ≡ true} (λ _ _ h. h) (λ _ _ _. refl)
      (first, true) refl
