-- ===== src/Tiering/Boot/Evidence.antt =====
-- The evidence of the same host, and what a recovery does
-- (crates/tiering/src/boot_validation_v6.rs).
use nemor.Base.{Bool, false, not, ◌&&◌, String, str_eq, is_some}
use nemor.Tiering.Boot.Types.{StorageProfile}
use nemor.Tiering.Boot.Equality.{is_sha256, profile_eq}
use nemor.Tiering.Boot.Stages.{TransactionStage}
use nemor.Tiering.Boot.Interface.{SameHostZramBaselineEvidence, SameHostProfileEvidence}

unfoldable pub matching_same_host_evidence :
    SameHostZramBaselineEvidence → SameHostProfileEvidence → StorageProfile → Bool
matching_same_host_evidence b p profile =
    (str_eq b.schema "tiering-zram-baseline-v4"
      && (str_eq p.schema "tiering-profile-benchmark-v6"
          && (profile_eq p.profile profile && str_eq b.validation_id p.validation_id)))
    && ((str_eq b.source_commit p.source_commit
          && (str_eq b.source_state_sha256 p.source_state_sha256
              && (str_eq b.environment_sha256 p.environment_sha256
                  && (str_eq b.topology_sha256 p.topology_sha256
                      && str_eq b.workload_sha256 p.workload_sha256))))
        && ((b.real && (p.real && (not b.oom && (not p.oom && not b.safety_failure))))
            && ((not p.safety_failure
                  && (b.cleanup_passed
                      && (p.cleanup_passed && (b.final_restore_passed && p.final_restore_passed))))
                && ((p.write_budget_passed
                      && (is_some p.backing_write_bytes && is_some p.latency_ns))
                    && ((is_sha256 b.archive_sha256
                          && (is_sha256 p.archive_sha256
                              && (is_sha256 b.raw_evidence_sha256
                                  && is_sha256 p.raw_evidence_sha256)))
                        && (str_eq b.workload_protocol "tiering-bounded-workload-v3"
                            && (str_eq p.workload_protocol "tiering-bounded-workload-v3"
                                && str_eq p.backing_write_confidence
                                    "bounded-physical-device-attributed")))))))

unfoldable pub recovery_action : TransactionStage → Bool → String
recovery_action TransactionStage.prepared _ = "remove_exact_owned_before_reboot"
recovery_action TransactionStage.root_preflighted _ = "remove_exact_owned_before_reboot"
recovery_action TransactionStage.baseline_measuring _ = "remove_exact_owned_before_reboot"
recovery_action TransactionStage.baseline_measured _ = "remove_exact_owned_before_reboot"
recovery_action TransactionStage.applying _ = "remove_exact_owned_before_reboot"
recovery_action TransactionStage.applied _ = "remove_exact_owned_before_reboot"
recovery_action TransactionStage.one_shot_selecting false = "clear_exact_owned_oneshot_then_remove"
recovery_action TransactionStage.one_shot_selected false = "clear_exact_owned_oneshot_then_remove"
recovery_action TransactionStage.baseline_selected _ = "verify_baseline_preserve_artifacts"
recovery_action TransactionStage.baseline_boot _ = "verify_baseline_preserve_artifacts"
recovery_action TransactionStage.baseline_verified _ = "resume_exact_cleanup"
recovery_action TransactionStage.cleaning _ = "resume_exact_cleanup"
recovery_action TransactionStage.restored _ = "no_op"
recovery_action TransactionStage.recovered _ = "no_op"
recovery_action TransactionStage.failed _ = "inspect_primary_error_and_resume_stage_aware"
-- The stages from the selected experimental boot to the selection of the baseline.
recovery_action _ _ = "select_exact_baseline_oneshot_preserve_artifacts"
