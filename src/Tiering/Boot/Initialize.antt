-- ===== src/Tiering/Boot/Initialize.antt =====
-- The preflight of a boot validation, its new transaction, and the measurement of the baseline
-- (crates/tiering/src/boot_validation_v6.rs).
use nemor.Base.{
  ℕ, ◌+◌, ◌*◌, Bool, true, false, not, ◌&&◌, ◌||◌, String, ◌+++◌, Option, none, some, [], ◌∷◌, ◌==◌,
  leb, str_eq, pairs_eq, any, map, filter, is_some, min, Result, ok, err,
}
use nemor.Base.Proc.{Proc}
use nemor.Base.Exec.{◌>>=◌, ◌>>◌, query, refuse}
use nemor.Tiering.Boot.Types.{
  BootValidationError, readback, preflight, identity, PreparedManifest, OwnedArtifactKind,
}
use nemor.Tiering.Boot.Observations.{PreflightObservation, BaselineMeasurementObservation}
use nemor.Tiering.Boot.Equality.{is_sha256, swaps_eq, zram_eq, bool_eq}
use nemor.Tiering.Boot.Stages.{TransactionStage}
use nemor.Tiering.Boot.Interface.{BootLifecycleBackend, Serializer, Document}
use nemor.Tiering.Boot.Ledger.{DurableTransaction, seal}
use nemor.Tiering.Boot.Lifecycle.{
  Boot, World, on_host, seal_of, persist, or_fail, fail_if, advance, intend, finish_intent,
  keep_evidence,
}
use nemor.Tiering.Boot.PostBoot.{is_zero}

abbrev nat_is : Option ℕ → ℕ → Bool
nat_is none v = false
nat_is (some u) v = u == v

abbrev on_battery : Option Bool → Bool
on_battery (some false) = true
on_battery _ = false

abbrev u64_max : ℕ
u64_max = 18446744073709551615

unfoldable pub derived_preflight_ready : PreparedManifest → PreflightObservation → Bool
derived_preflight_ready manifest o =
    (o.source_matches && (o.binaries_match && (o.config_matches && o.topology_matches)))
    && ((o.boot_matches && (o.bootloader_type_matches && o.bootloader_version_matches))
        && ((o.current_entry_semantics_match
              && (o.current_entry_hash_matches && o.current_entry_path_matches))
            && ((o.default_entry_semantics_match
                  && (o.default_entry_hash_matches && o.default_entry_path_matches))
                && ((o.referenced_boot_files_match
                      && (o.kernel_release_matches && o.command_line_matches))
                    && ((o.esp_device_matches
                          && (o.esp_filesystem_matches
                              && (o.esp_uuid_matches && o.esp_mount_matches)))
                        && ((o.boot_order_matches
                              && (o.one_shot_matches && (o.zram_matches && o.zswap_matches)))
                            && ((o.parents_safe
                                  && (o.transaction_hierarchy_safe
                                      && (o.staged_source_binary_matches
                                          && o.validation_destinations_absent)))
                                && ((o.package_update_absent
                                      && (o.secure_boot_compatible
                                          && (o.stale_state_absent
                                              && (o.validation_process_absent
                                                  && o.unrelated_mutation_absent))))
                                    && (not (on_battery o.ac_power)
                                        && (leb (1024 * 1024) o.esp_free_bytes
                                            && leb
                                                (min
                                                  (manifest.payload.swapfile.size_bytes
                                                    + 64 * 1024 * 1024)
                                                  u64_max)
                                                o.swap_free_bytes))))))))))

module _ {W : Type 0}
    (check_manifest : PreparedManifest → Result BootValidationError (Unit {0})) where
  unfoldable pub validate_preflight :
      PreparedManifest → PreflightObservation → Bool → Proc W BootValidationError (Unit {0})
  unfolding derived_preflight_ready
  validate_preflight manifest o root = do
    query (λ _. check_manifest manifest)
    refuse (not (str_eq o.schema "tiering-boot-preflight-v6") || not (o.mutation_count == 0))
        (preflight "not_non_mutating")
    refuse (not (str_eq o.host_identity_sha256 manifest.payload.material_environment_sha256))
        (identity "material environment")
    refuse
        (root
          && (not (o.uid == 0)
              || (not (nat_is o.sudo_uid manifest.payload.prepared_uid)
                  || not (nat_is o.sudo_gid manifest.payload.prepared_gid))))
        BootValidationError.sudo_identity
    refuse
        (not root
          && (not (o.uid == manifest.payload.prepared_uid)
              || not (o.gid == manifest.payload.prepared_gid)))
        (identity "preparing user")
    refuse (not (bool_eq o.ready (derived_preflight_ready manifest o)))
        (preflight "serialized_readiness_contradiction")
    refuse (not (derived_preflight_ready manifest o)) (preflight "authoritative_gate_failed")

abbrev is_unit : OwnedArtifactKind → Bool
is_unit OwnedArtifactKind.validation_unit = true
is_unit _ = false

module _ {B : Type 0} (backend : BootLifecycleBackend B) (serial : Serializer) where
  -- `DurableTransactionV6::new`, after the manifest is checked.
  unfoldable pub new_transaction : PreparedManifest → String → DurableTransaction
  unfolding seal
  new_transaction manifest boot_id =
      let p = manifest.payload in
      seal (seal_of backend serial) (record {
        validation_id = p.validation_id;
        manifest_sha256 = serial.canonical_json_sha256 (Document.manifest_json manifest);
        stage = TransactionStage.prepared;
        baseline_boot_id = boot_id;
        current_boot_id = boot_id;
        artifact_registry = map (λ a. a.path) p.owned_artifacts;
        swapfile_registry = p.swapfile.path ∷ [];
        unit_registry = map (λ a. a.path) (filter (λ a. is_unit a.kind) p.owned_artifacts);
        transient_unit_registry =
            ("nemor-phase6-workload-" +++ (p.validation_id +++ ".scope")) ∷ [];
        applied_swap_identity = none;
        evidence_hashes = [];
        mutation_records = [];
        primary_error = none;
        failed_from_stage = none;
        secondary_errors = [];
        recovery_state = "not_required";
        idempotence_verified = false;
        activation_parameter_index = 0;
        original_primary_error = none;
        terminal_archive_sha256 = none;
        post_boot_summary = none;
      })

  unfoldable pub baseline_rejected :
      PreparedManifest → DurableTransaction → BaselineMeasurementObservation → Bool
  baseline_rejected manifest tx o =
      let p = manifest.payload in
      any (λ bad. bad)
        (not (str_eq o.schema "tiering-zram-baseline-v4")
          ∷ (not (str_eq o.validation_id p.validation_id)
              ∷ (not (str_eq o.boot_id tx.payload.baseline_boot_id)
                  ∷ (not (zram_eq o.zram p.protected_zram)
                      ∷ (not (pairs_eq o.zswap.parameters p.baseline_zswap.parameters)
                          ∷ (not (swaps_eq o.swaps p.baseline_swaps)
                              ∷ (not (str_eq o.workload_protocol "tiering-bounded-workload-v3")
                                  ∷ (not (is_sha256 o.workload_sha256) ∷ []))))))))
      || any (λ bad. bad)
          ((o.bytes_touched == 0)
            ∷ (not (is_some o.latency_ns)
                ∷ (not (is_zero o.cgroup_oom_delta)
                    ∷ (not (is_zero o.cgroup_oom_kill_delta)
                        ∷ (not o.content_verified
                            ∷ (not o.cleanup_passed
                                ∷ (not o.scope_absent ∷ (o.production_activation ∷ []))))))))

  -- The helper is staged before anything else changes.
  unfoldable pub stage_baseline_helper : PreparedManifest → Boot B (Unit {0})
  unfolding intend or_fail fail_if finish_intent persist
  stage_baseline_helper manifest = do
    intend backend serial "stage_trusted_baseline_helper" manifest.payload.staged_helper.destination
    or_fail backend serial (backend.stage_helper manifest.payload.staged_helper)
    matches ← query (λ w. ok (backend.staged_helper_matches w.1 manifest.payload.staged_helper))
    fail_if backend serial (not matches) "staged baseline helper readback mismatch"
    finish_intent backend serial manifest.payload.staged_helper.source.sha256
    persist backend serial

  unfoldable pub measure_baseline : PreparedManifest → Boot B (Unit {0})
  unfolding advance or_fail fail_if keep_evidence baseline_rejected
  measure_baseline manifest = do
    advance backend serial TransactionStage.baseline_measuring
    o ← or_fail backend serial (backend.collect_zram_baseline manifest)
    tx ← query (λ w. ok w.0)
    fail_if backend serial (baseline_rejected manifest tx o) "same-host zram baseline rejected"
    keep_evidence backend serial "zram-baseline-evidence-v4.json" (Document.measurement_json o)
        "persist zram baseline"
    advance backend serial TransactionStage.baseline_measured

  unfoldable pub bootstrap : PreparedManifest → PreflightObservation → Boot B (Unit {0})
  unfolding on_host persist keep_evidence advance stage_baseline_helper measure_baseline
  bootstrap manifest root_preflight = do
    on_host (readback "create transaction root") (backend.create_transaction_root manifest)
    on_host (readback "copy prepared manifest") (backend.copy_prepared_manifest manifest)
    persist backend serial
    keep_evidence backend serial "root-preflight-v6.json" (Document.preflight_json root_preflight)
        "persist root preflight"
    advance backend serial TransactionStage.root_preflighted
    stage_baseline_helper manifest
    measure_baseline manifest

module _ {B : Type 0} where
  -- On an error the caller has no transaction.
  abbrev pub hand_over :
      World B × Result BootValidationError (Unit {0})
      → B × Result BootValidationError DurableTransaction
  hand_over ((tx, b), ok _) = (b, ok tx)
  hand_over ((tx, b), err e) = (b, err e)

module _ {B : Type 0} (backend : BootLifecycleBackend B) (serial : Serializer)
    (check_manifest : PreparedManifest → Result BootValidationError (Unit {0})) where
  unfoldable pub initialize_and_measure_baseline :
      PreparedManifest
      → PreflightObservation
      → String
      → Proc B BootValidationError DurableTransaction
  unfolding validate_preflight new_transaction bootstrap
  initialize_and_measure_baseline manifest root_preflight boot_id = do
    validate_preflight check_manifest manifest root_preflight true
    query (λ _. check_manifest manifest)
    λ b. hand_over (
        bootstrap backend serial manifest root_preflight
          (new_transaction backend serial manifest boot_id, b))
