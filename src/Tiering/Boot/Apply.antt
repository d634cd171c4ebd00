-- ===== src/Tiering/Boot/Apply.antt =====
-- The application of a manifest: the swapfile and the artifacts, each with an intent and a readback
-- (crates/tiering/src/boot_validation_v6.rs).
use nemor.Base.{
  Bool, not, ◌&&◌, String, ◌+++◌, some, List, [], ◌∷◌, ◌++◌, ◌==◌, str_eq, filter, is_some,
  if◌then◌else◌, Result, ok, err,
}
use nemor.Base.Exec.{◌>>=◌, ◌>>◌, pure, query, refuse, when}
use nemor.Tiering.Boot.Types.{BootValidationError, PreparedManifest, OwnedArtifact, SwapIdentity}
use nemor.Tiering.Boot.Stages.{TransactionStage}
use nemor.Tiering.Boot.Interface.{BootLifecycleBackend, Serializer, Document}
use nemor.Tiering.Boot.Ledger.{DurableTransaction, evidence, reseal}
use nemor.Tiering.Boot.Operations.{validated}
use nemor.Tiering.Boot.Lifecycle.{
  Boot, is_helper, in_stage, change, note_error, seal_of, persist, fail_transaction, or_fail,
  fail_if, advance, intend, finish_intent, keep_evidence, boot_unchanged, undo_and_fail,
}

module _ {B : Type 0} (backend : BootLifecycleBackend B) (serial : Serializer) where
  -- One artifact: an intent, the artifact itself, its readback; what was made before is taken back
  -- if it fails. The helper is only looked at.
  unfoldable pub after_create :
      PreparedManifest
      → List OwnedArtifact
      → OwnedArtifact
      → Result String (Unit {0})
      → Boot B (Unit {0})
  unfolding undo_and_fail
  after_create manifest created artifact (err primary) w =
      undo_and_fail backend serial manifest created primary [] w
  after_create manifest created artifact (ok _) (tx, b) =
      let (b', errors) = note_error (backend.remove_artifact artifact b) [] in
      if backend.artifact_matches b artifact
      then ((tx, b), ok tt)
      else undo_and_fail backend serial manifest created
          ("artifact readback failed: " +++ artifact.path) errors (tx, b')

  unfoldable pub create_one :
      PreparedManifest → List OwnedArtifact → OwnedArtifact → Boot B (Unit {0})
  unfolding after_create
  create_one manifest created artifact (tx, b) =
      let (b', made) = backend.create_artifact artifact b in
      after_create manifest created artifact made (tx, b')

  unfoldable pub add_artifact :
      PreparedManifest → List OwnedArtifact → OwnedArtifact → Boot B (Unit {0})
  unfolding create_one intend persist
  add_artifact manifest created artifact = do
    intend backend serial "create_new_artifact" artifact.path
    create_one manifest created artifact
    finish_intent backend serial artifact.sha256
    persist backend serial

  -- The artifacts that were there or made so far go along.
  unfoldable pub create_artifacts :
      PreparedManifest → List OwnedArtifact → List OwnedArtifact → Boot B (List OwnedArtifact)
  unfolding add_artifact fail_if
  create_artifacts manifest created [] = pure created
  create_artifacts manifest created (artifact ∷ artifacts) = do
    matches ← query (λ w. ok (backend.staged_helper_matches w.1 manifest.payload.staged_helper))
    fail_if backend serial (is_helper artifact.kind && not matches)
        "pre-staged helper changed before apply"
    when (not (is_helper artifact.kind)) (add_artifact manifest created artifact)
    create_artifacts manifest
        (if is_helper artifact.kind then created else created ++ (artifact ∷ [])) artifacts

  abbrev pub set_swap : SwapIdentity → DurableTransaction → DurableTransaction
  set_swap swap tx =
      reseal (seal_of backend serial) (record tx.payload { applied_swap_identity = some swap }) tx

  abbrev pub swap_as_planned : PreparedManifest → SwapIdentity → Bool
  swap_as_planned manifest swap =
      str_eq swap.path manifest.payload.swapfile.path
      && ((swap.size_bytes == manifest.payload.swapfile.size_bytes)
          && (not swap.active && is_some swap.uuid))

  unfoldable pub reject_swap : PreparedManifest → Boot B (Unit {0})
  unfolding fail_transaction
  reject_swap manifest (tx, b) =
      let (b', secondary) = note_error (backend.remove_swapfile manifest b) [] in
      fail_transaction backend serial "created swap identity mismatch" secondary (tx, b')

  unfoldable pub sync_or_undo :
      PreparedManifest → List OwnedArtifact → Result String (Unit {0}) → Boot B (Unit {0})
  unfolding undo_and_fail
  sync_or_undo manifest created (ok _) w = (w, ok tt)
  sync_or_undo manifest created (err primary) w =
      undo_and_fail backend serial manifest created primary [] w

  unfoldable pub sync : PreparedManifest → List OwnedArtifact → Boot B (Unit {0})
  unfolding sync_or_undo
  sync manifest created (tx, b) =
      let (b', synced) = backend.sync_parents manifest b in
      sync_or_undo manifest created synced (tx, b')

  unfoldable pub keep_order : PreparedManifest → List OwnedArtifact → Boot B (Unit {0})
  unfolding undo_and_fail
  keep_order manifest created (tx, b) =
      if boot_unchanged backend serial manifest b
      then ((tx, b), ok tt)
      else undo_and_fail backend serial manifest created "default or BootOrder changed" [] (tx, b)

  abbrev pub may_apply : PreparedManifest → DurableTransaction → Bool
  may_apply manifest tx =
      in_stage tx.payload.stage TransactionStage.baseline_measured
      && (str_eq tx.payload.manifest_sha256
            (serial.canonical_json_sha256 (Document.manifest_json manifest))
          && is_some (evidence "zram-baseline-evidence-v4.json" tx.payload.evidence_hashes))

  -- The swapfile, its identity recorded and compared with the plan.
  unfoldable pub create_swap : PreparedManifest → Boot B (Unit {0})
  unfolding intend or_fail persist reject_swap
  create_swap manifest = do
    intend backend serial "create_btrfs_swapfile" manifest.payload.swapfile.path
    swap ← or_fail backend serial (backend.create_swapfile manifest)
    change (set_swap swap)
    persist backend serial
    when (not (swap_as_planned manifest swap)) (reject_swap manifest)
    finish_intent backend serial (serial.canonical_json_sha256 (Document.swap_json swap))
    persist backend serial

module _ {B : Type 0} (backend : BootLifecycleBackend B) (serial : Serializer)
    (check_manifest : PreparedManifest → Result BootValidationError (Unit {0})) where
  unfoldable pub apply_exact_transaction : PreparedManifest → Boot B (Unit {0})
  unfolding advance create_swap create_artifacts sync keep_order keep_evidence
  apply_exact_transaction manifest = do
    validated backend serial check_manifest manifest
    tx ← query (λ w. ok w.0)
    refuse (not (may_apply backend serial manifest tx)) BootValidationError.transition
    advance backend serial TransactionStage.applying
    create_swap backend serial manifest
    created ←
        create_artifacts backend serial manifest
          (filter (λ a. is_helper a.kind) manifest.payload.owned_artifacts)
          manifest.payload.owned_artifacts
    sync backend serial manifest created
    keep_order backend serial manifest created
    applied ← query (λ w. ok w.0)
    keep_evidence backend serial "apply-evidence-v6.json"
        (Document.apply_json applied.payload.validation_id applied.payload.applied_swap_identity
          applied.payload.artifact_registry applied.payload.mutation_records)
        "persist apply evidence"
    advance backend serial TransactionStage.applied
