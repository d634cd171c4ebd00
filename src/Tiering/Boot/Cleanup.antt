-- ===== src/Tiering/Boot/Cleanup.antt =====
-- The proof of the baseline, and the removal of what the validation made
-- (crates/tiering/src/boot_validation_v6.rs).
pub mod Guard
use nemor.Base.{
  ℕ, Bool, true, false, not, ◌&&◌, ◌||◌, String, ◌+++◌, Option, none, some, List, [], ◌∷◌, ◌++◌,
  ◌==◌, str_eq, opt_str_eq, strs_eq, pairs_eq, any, filter, reverse, is_some, if◌then◌else◌, Result,
  ok, err,
}
use nemor.Base.Chars.{Chars, codes, strip_prefix}
use nemor.Base.Integer.{ℤ, leb_ℤ}
use nemor.Base.Proc.{Proc}
use nemor.Base.Exec.{◌>>=◌, ◌>>◌, pure, need, query, refuse, when}
use nemor.Tiering.Boot.Types.{
  BootValidationError, readback, PreparedManifest, OwnedArtifact, SwapIdentity, ZramIdentity,
  BaselineRestoreObservation,
}
use nemor.Tiering.Boot.Equality.{swaps_eq, zram_eq, contains_text}
use nemor.Tiering.Boot.Stages.{TransactionStage}
use nemor.Tiering.Boot.Interface.{
  BootLifecycleBackend, Serializer, Document, SameHostZramBaselineEvidence, SameHostProfileEvidence,
}
use nemor.Tiering.Boot.Ledger.{
  DurableTransaction, DurableTransactionPayload, PostBootSummary, evidence, validate, transition,
  complete_last, reseal,
}
use nemor.Tiering.Boot.Lifecycle.{
  Boot, World, is_helper, in_stage, change, on_ledger, on_host, note_error, seal_of, persist,
  fail_transaction, or_fail, fail_if, advance, intend, finish_intent, keep_evidence, boot_unchanged,
  one_shot_is, undo_and_fail, retained,
}

unfoldable pub baseline_proven :
    PreparedManifest → DurableTransaction → BaselineRestoreObservation → Bool
baseline_proven manifest tx o =
    let p = manifest.payload in
    str_eq o.schema "tiering-final-restore-evidence-v6"
    && (in_stage tx.payload.stage TransactionStage.baseline_boot
        && (not (str_eq o.boot_id tx.payload.baseline_boot_id)
            && (str_eq o.booted_entry p.boot.current_entry.id
                && (str_eq o.command_line p.boot.current_command_line
                    && (not (contains_text (codes o.command_line) (codes p.validation_marker))
                        && (pairs_eq o.zswap.parameters p.baseline_zswap.parameters
                            && (zram_eq o.protected_zram p.protected_zram
                                && (swaps_eq o.swaps p.baseline_swaps
                                    && (str_eq o.default_entry p.boot.default_entry.id
                                        && (strs_eq o.boot_order p.boot.boot_order
                                            && (opt_str_eq o.one_shot p.boot.prior_one_shot
                                                && not o.production_activation)))))))))))

module _ {B : Type 0} (backend : BootLifecycleBackend B) (serial : Serializer) where
  -- The removals of the clean-up.
  unfoldable pub remove_one : OwnedArtifact → Boot B (Unit {0})
  unfolding intend or_fail persist
  remove_one artifact = do
    intend backend serial "remove_exact_artifact" artifact.path
    or_fail backend serial (backend.remove_artifact artifact)
    finish_intent backend serial "absent"
    persist backend serial

  unfoldable pub remove_artifacts : List OwnedArtifact → Boot B (Unit {0})
  unfolding remove_one
  remove_artifacts [] = pure tt
  remove_artifacts (artifact ∷ artifacts) = do remove_one artifact; remove_artifacts artifacts

  abbrev pub all_absent : PreparedManifest → B → Bool
  all_absent manifest b =
      not (any (λ a. not (backend.artifact_absent b a)) manifest.payload.owned_artifacts)
      && backend.swapfile_absent b manifest

  abbrev pub baseline_authority :
      PreparedManifest → DurableTransaction → String → SameHostZramBaselineEvidence
  baseline_authority manifest tx raw =
      let p = manifest.payload in
      record {
        schema = "tiering-zram-baseline-v4";
        validation_id = p.validation_id;
        source_commit = p.source_commit;
        source_state_sha256 = p.source_state_sha256;
        environment_sha256 = p.material_environment_sha256;
        topology_sha256 = serial.canonical_json_sha256 (Document.topology_json p.topology);
        workload_sha256 = serial.canonical_json_sha256 (Document.workload_json p.workload);
        real = true;
        oom = false;
        safety_failure = false;
        cleanup_passed = true;
        final_restore_passed = true;
        archive_sha256 = tx.payload.manifest_sha256;
        raw_evidence_sha256 = raw;
        workload_protocol = "tiering-bounded-workload-v3";
      }

  abbrev pub profile_authority :
      PreparedManifest → DurableTransaction → String → PostBootSummary → SameHostProfileEvidence
  profile_authority manifest tx raw summary =
      let p = manifest.payload in
      record {
        schema = "tiering-profile-benchmark-v6";
        validation_id = p.validation_id;
        profile = p.topology.profile;
        source_commit = p.source_commit;
        source_state_sha256 = p.source_state_sha256;
        environment_sha256 = p.material_environment_sha256;
        topology_sha256 = serial.canonical_json_sha256 (Document.topology_json p.topology);
        workload_sha256 = serial.canonical_json_sha256 (Document.workload_json p.workload);
        real = true;
        oom = summary.oom;
        safety_failure = summary.safety_failure;
        cleanup_passed = true;
        final_restore_passed = true;
        write_budget_passed = summary.write_budget_passed;
        backing_write_bytes = some summary.backing_write_bytes;
        latency_ns = some summary.latency_ns;
        archive_sha256 = tx.payload.manifest_sha256;
        raw_evidence_sha256 = raw;
        workload_protocol = "tiering-bounded-workload-v3";
        backing_write_confidence = summary.backing_write_confidence;
      }

  -- The baseline as it was observed must be proven.
  unfoldable pub require_proven :
      PreparedManifest → Option BaselineRestoreObservation → Boot B BaselineRestoreObservation
  unfolding baseline_proven
  require_proven manifest found = do
    baseline ← need found (readback "collect baseline")
    now ← query (λ w. ok w.0)
    refuse (not (baseline_proven manifest now baseline))
        (readback "baseline must be proven before deletion")
    pure baseline

  unfoldable pub observe_baseline : PreparedManifest → Boot B BaselineRestoreObservation
  unfolding require_proven
  observe_baseline manifest = do
    found ← query (λ w. ok (backend.collect_baseline w.1 manifest))
    require_proven manifest found

  -- Up to the proof of the baseline.
  unfoldable pub prove_baseline : PreparedManifest → Boot B (Unit {0})
  unfolding advance keep_evidence observe_baseline
  prove_baseline manifest = do
    tx ← query (λ w. ok w.0)
    when (in_stage tx.payload.stage TransactionStage.baseline_selected)
        (advance backend serial TransactionStage.baseline_boot)
    baseline ← observe_baseline manifest
    keep_evidence backend serial "baseline-restore-evidence-v6.json"
        (Document.restore_json baseline) "persist baseline evidence"
    advance backend serial TransactionStage.baseline_verified

  unfoldable pub remove_all : PreparedManifest → Boot B (Unit {0})
  unfolding advance remove_artifacts intend or_fail fail_if
  remove_all manifest = do
    advance backend serial TransactionStage.cleaning
    remove_artifacts (reverse manifest.payload.owned_artifacts)
    intend backend serial "remove_exact_swapfile" manifest.payload.swapfile.path
    or_fail backend serial (backend.remove_swapfile manifest)
    finish_intent backend serial "absent"
    absent ← query (λ w. ok (all_absent manifest w.1))
    fail_if backend serial (not absent) "final exact-owned absence verification failed"
    or_fail backend serial (backend.finalize_runtime_cleanup manifest)

  unfoldable pub publish_authority : PreparedManifest → Boot B (Unit {0})
  unfolding evidence keep_evidence advance
  publish_authority manifest = do
    tx ← query (λ w. ok w.0)
    baseline_raw ←
        need (evidence "zram-baseline-evidence-v2.json" tx.payload.evidence_hashes)
          (readback "baseline raw evidence")
    profile_raw ←
        need (evidence "post-boot-evidence-v6.json" tx.payload.evidence_hashes)
          (readback "profile raw evidence")
    summary ← need tx.payload.post_boot_summary (readback "profile summary")
    keep_evidence backend serial "same-host-zram-baseline-v2.json"
        (Document.baseline_json (baseline_authority manifest tx baseline_raw))
        "persist same-host authority"
    keep_evidence backend serial "same-host-profile-v6.json"
        (Document.profile_json (profile_authority manifest tx profile_raw summary))
        "persist same-host authority"
    advance backend serial TransactionStage.restored
    sealed ← query (λ w. ok w.0)
    on_host (readback "seal evidence archive") (backend.seal_archive sealed)

  unfoldable pub verify_then_cleanup : PreparedManifest → Boot B (Unit {0})
  unfolding prove_baseline remove_all publish_authority
  verify_then_cleanup manifest = do
    prove_baseline manifest
    remove_all manifest
    publish_authority manifest
