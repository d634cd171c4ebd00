-- ===== src/Tiering/Boot/Trace.antt =====
-- Sequences of operations of the boot lifecycle, each on what the one before left behind, whether it
-- succeeded or failed (crates/tiering/src/boot_validation_v6.rs).
pub mod Progress
pub mod Publication
use nemor.Base.{Bool, String, List, [], ◌∷◌, Result}
use nemor.Base.Exec.Keeps.{Keeps}
use nemor.Tiering.Boot.Types.{BootValidationError, PreparedManifest}
use nemor.Tiering.Boot.Stages.{TransactionStage}
use nemor.Tiering.Boot.Interface.{BootLifecycleBackend, Serializer}
use nemor.Tiering.Boot.Ledger.{DurableTransaction}
use nemor.Tiering.Boot.Lifecycle.{World, seal_of, advance}
use nemor.Tiering.Boot.Lifecycle.Stable.{IsStable, Of, advance-Keeps}
use nemor.Tiering.Boot.Operations.{select_exact_one_shot, select_baseline_rollback}
use nemor.Tiering.Boot.Apply.{apply_exact_transaction}
use nemor.Tiering.Boot.PostBoot.{collect_and_validate_post_boot}
use nemor.Tiering.Boot.Cleanup.{verify_then_cleanup}
use nemor.Tiering.Boot.Kept.{
  select_exact_one_shot-Keeps, select_baseline_rollback-Keeps, apply_exact_transaction-Keeps,
  verify_then_cleanup-Keeps,
}
use nemor.Tiering.Boot.Kept.Measurement.{collect_and_validate_post_boot-Keeps}

-- The operations on a transaction; `move_to` is a transition that the caller makes and persists.
pub data LifecycleOperation : Type 0 where
  apply select_one_shot collect_post_boot select_rollback cleanup : LifecycleOperation
  move_to : TransactionStage → LifecycleOperation

module _ {B : Type 0} (backend : BootLifecycleBackend B) (serial : Serializer)
    (check_manifest : PreparedManifest → Result BootValidationError (Unit {0}))
    (manifest : PreparedManifest) where
  unfoldable pub perform : LifecycleOperation → World B → World B
  unfolding apply_exact_transaction select_exact_one_shot collect_and_validate_post_boot
      select_baseline_rollback verify_then_cleanup advance
  perform apply w = (apply_exact_transaction backend serial check_manifest manifest w).0
  perform select_one_shot w = (select_exact_one_shot backend serial check_manifest manifest w).0
  perform collect_post_boot w =
      (collect_and_validate_post_boot backend serial check_manifest manifest w).0
  perform select_rollback w = (select_baseline_rollback backend serial manifest w).0
  perform cleanup w = (verify_then_cleanup backend serial manifest w).0
  perform (move_to stage) w = (advance backend serial stage w).0

  unfoldable pub perform_all : List LifecycleOperation → World B → World B
  unfolding perform
  perform_all [] w = w
  perform_all (operation ∷ operations) w = perform_all operations (perform operation w)

  module _ {Q : DurableTransaction → Type 0} (q : IsStable (seal_of backend serial) Q) where
    perform-Keeps :
        (operation : LifecycleOperation) (w : World B) → Q w.0 → Q (perform operation w).0
    unfolding perform
    perform-Keeps apply =
        (apply_exact_transaction-Keeps backend serial check_manifest q manifest).at
    perform-Keeps select_one_shot =
        (select_exact_one_shot-Keeps backend serial check_manifest q manifest).at
    perform-Keeps collect_post_boot =
        (collect_and_validate_post_boot-Keeps backend serial q check_manifest manifest).at
    perform-Keeps select_rollback =
        (select_baseline_rollback-Keeps backend serial check_manifest q manifest).at
    perform-Keeps cleanup = (verify_then_cleanup-Keeps backend serial check_manifest q manifest).at
    perform-Keeps (move_to stage) = (advance-Keeps backend serial q stage).at

    pub perform_all-keeps :
        (operations : List LifecycleOperation) (w : World B)
        → Q w.0
        → Q (perform_all operations w).0
    unfolding perform_all
    perform_all-keeps [] w h = h
    perform_all-keeps (operation ∷ operations) w h =
        perform_all-keeps operations (perform operation w) (perform-Keeps operation w h)
