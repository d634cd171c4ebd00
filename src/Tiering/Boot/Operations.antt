-- ===== src/Tiering/Boot/Operations.antt =====
-- Selection of the boot entry for one boot, and of the entry of the baseline
-- (crates/tiering/src/boot_validation_v6.rs).
pub mod Valid
use nemor.Base.{
  ℕ, Bool, true, false, not, ◌&&◌, ◌||◌, String, ◌+++◌, Option, none, some, List, [], ◌∷◌, ◌++◌,
  ◌==◌, str_eq, opt_str_eq, strs_eq, pairs_eq, any, filter, reverse, is_some, if◌then◌else◌, Result,
  ok, err,
}
use nemor.Base.Chars.{Chars, codes, strip_prefix}
use nemor.Base.Integer.{ℤ, leb_ℤ}
use nemor.Base.Proc.{Proc}
use nemor.Base.Exec.{◌>>=◌, ◌>>◌, pure, need, query, refuse, when}
use nemor.Tiering.Boot.Types.{
  BootValidationError, readback, PreparedManifest, OwnedArtifact, SwapIdentity, ZramIdentity,
  BaselineRestoreObservation,
}
use nemor.Tiering.Boot.Stages.{TransactionStage}
use nemor.Tiering.Boot.Interface.{
  BootLifecycleBackend, Serializer, Document, SameHostZramBaselineEvidence, SameHostProfileEvidence,
}
use nemor.Tiering.Boot.Ledger.{
  DurableTransaction, DurableTransactionPayload, PostBootSummary, evidence, validate, transition,
  complete_last, reseal,
}
use nemor.Tiering.Boot.Lifecycle.{
  Boot, World, is_helper, in_stage, change, on_ledger, on_host, note_error, seal_of, persist,
  fail_transaction, or_fail, fail_if, advance, intend, finish_intent, keep_evidence, boot_unchanged,
  one_shot_is, undo_and_fail, retained,
}

module _ {B : Type 0} (backend : BootLifecycleBackend B) (serial : Serializer)
    (check_manifest : PreparedManifest → Result BootValidationError (Unit {0})) where
  -- `manifest.validate()?; tx.validate()?;`.
  abbrev pub validated : PreparedManifest → Boot B (Unit {0})
  validated manifest = do
    query (λ _. check_manifest manifest)
    on_ledger (validate (seal_of backend serial))

  unfoldable pub select_exact_one_shot : PreparedManifest → Boot B (Unit {0})
  unfolding or_fail fail_if advance intend keep_evidence
  select_exact_one_shot manifest = do
    validated manifest
    helper ← query (λ w. ok (backend.staged_helper_matches w.1 manifest.payload.staged_helper))
    refuse (not helper) (readback "staged helper")
    advance backend serial TransactionStage.one_shot_selecting
    intend backend serial "set_oneshot" manifest.payload.experimental_entry.path
    or_fail backend serial (backend.set_one_shot manifest.payload.experimental_entry.id)
    selected ←
        query
          (λ w. ok (one_shot_is backend serial manifest manifest.payload.experimental_entry.id w.1))
    fail_if backend serial (not selected) "one-shot readback mismatch"
    now ← query (λ w. ok w.1)
    keep_evidence backend serial "one-shot-evidence-v6.json"
        (Document.one_shot_json manifest.payload.experimental_entry.id (backend.read_one_shot now)
          (backend.permanent_default now) (backend.boot_order now))
        "persist one-shot evidence"
    finish_intent backend serial
        (serial.canonical_json_sha256 (Document.entry_json manifest.payload.experimental_entry))
    advance backend serial TransactionStage.one_shot_selected

module _ {B : Type 0} (backend : BootLifecycleBackend B) (serial : Serializer) where
  unfoldable pub select_baseline_rollback : PreparedManifest → Boot B (Unit {0})
  unfolding or_fail fail_if advance intend
  select_baseline_rollback manifest = do
    advance backend serial TransactionStage.baseline_selecting
    intend backend serial "set_baseline_oneshot" manifest.payload.boot.current_entry.path
    or_fail backend serial (backend.set_one_shot manifest.payload.recovery_entry)
    selected ←
        query (λ w. ok (one_shot_is backend serial manifest manifest.payload.recovery_entry w.1))
    fail_if backend serial (not selected) "baseline one-shot readback mismatch"
    finish_intent backend serial
        (serial.canonical_json_sha256 (Document.text_json manifest.payload.recovery_entry))
    advance backend serial TransactionStage.baseline_selected
