-- ===== src/Tiering/Boot/Interface.antt =====
-- The backend of the boot lifecycle, and serialization
-- (crates/tiering/src/boot_validation_v6.rs).
use nemor.Base.{ℕ, Bool, String, Option, List}
use nemor.Base.Proc.{Proc}
use nemor.Tiering.Boot.Types.{
  PreparedManifest, PreparedManifestPayload, OwnedArtifact, StagedBinaryPlan, SwapIdentity,
  BootEntryIdentity, StorageTopologyIdentity, WorkloadContract, StorageProfile,
  BaselineRestoreObservation,
}
use nemor.Tiering.Boot.Observations.{
  PreflightObservation, ActualPostBootObservation, BaselineMeasurementObservation,
}
use nemor.Tiering.Boot.Ledger.{DurableTransaction, DurableTransactionPayload, MutationRecord}

-- The methods of the trait but `current_boot_is_experimental`, which these functions do not call. A method that reads leaves the backend.
pub record BootLifecycleBackend (B : Type 0) : Type 0 where
  pub persist_transaction : DurableTransaction → Proc B String (Unit {0})
  pub create_transaction_root : PreparedManifest → Proc B String (Unit {0})
  pub copy_prepared_manifest : PreparedManifest → Proc B String (Unit {0})
  pub persist_evidence : String → List ℕ → Proc B String (Unit {0})
  pub create_swapfile : PreparedManifest → Proc B String SwapIdentity
  pub create_artifact : OwnedArtifact → Proc B String (Unit {0})
  pub stage_helper : StagedBinaryPlan → Proc B String (Unit {0})
  pub staged_helper_matches : B → StagedBinaryPlan → Bool
  pub artifact_matches : B → OwnedArtifact → Bool
  pub artifact_absent : B → OwnedArtifact → Bool
  pub sync_parents : PreparedManifest → Proc B String (Unit {0})
  pub remove_artifact : OwnedArtifact → Proc B String (Unit {0})
  pub remove_swapfile : PreparedManifest → Proc B String (Unit {0})
  pub swapfile_absent : B → PreparedManifest → Bool
  pub finalize_runtime_cleanup : PreparedManifest → Proc B String (Unit {0})
  pub set_one_shot : String → Proc B String (Unit {0})
  -- `read_one_shot().ok().flatten()`, `permanent_default().ok()`, `boot_order().ok()`.
  pub read_one_shot : B → Option String
  pub permanent_default : B → Option String
  pub boot_order : B → Option (List String)
  pub collect_zram_baseline : PreparedManifest → Proc B String BaselineMeasurementObservation
  pub collect_post_boot : PreparedManifest → Proc B String ActualPostBootObservation
  pub collect_baseline : B → PreparedManifest → Option BaselineRestoreObservation
  pub seal_archive : DurableTransaction → Proc B String (Unit {0})

pub record SameHostZramBaselineEvidence : Type 0 where
  pub schema : String
  pub validation_id : String
  pub source_commit : String
  pub source_state_sha256 : String
  pub environment_sha256 : String
  pub topology_sha256 : String
  pub workload_sha256 : String
  pub real : Bool
  pub oom : Bool
  pub safety_failure : Bool
  pub cleanup_passed : Bool
  pub final_restore_passed : Bool
  pub archive_sha256 : String
  pub raw_evidence_sha256 : String
  pub workload_protocol : String

pub record SameHostProfileEvidence : Type 0 where
  pub schema : String
  pub validation_id : String
  pub profile : StorageProfile
  pub source_commit : String
  pub source_state_sha256 : String
  pub environment_sha256 : String
  pub topology_sha256 : String
  pub workload_sha256 : String
  pub real : Bool
  pub oom : Bool
  pub safety_failure : Bool
  pub cleanup_passed : Bool
  pub final_restore_passed : Bool
  pub write_budget_passed : Bool
  pub backing_write_bytes : Option ℕ
  pub latency_ns : Option ℕ
  pub archive_sha256 : String
  pub raw_evidence_sha256 : String
  pub workload_protocol : String
  pub backing_write_confidence : String

-- What is serialized.
pub data Document : Type 0 where
  manifest_json : PreparedManifest → Document
  prepared_json : PreparedManifestPayload → Document
  payload_json : DurableTransactionPayload → Document
  swap_json : SwapIdentity → Document
  entry_json : BootEntryIdentity → Document
  text_json : String → Document
  topology_json : StorageTopologyIdentity → Document
  workload_json : WorkloadContract → Document
  preflight_json : PreflightObservation → Document
  measurement_json : BaselineMeasurementObservation → Document
  post_boot_json : ActualPostBootObservation → Document
  restore_json : BaselineRestoreObservation → Document
  baseline_json : SameHostZramBaselineEvidence → Document
  profile_json : SameHostProfileEvidence → Document
  -- The evidence of an application, and of a one-shot selection.
  apply_json : String → Option SwapIdentity → List String → List MutationRecord → Document
  one_shot_json : String → Option String → Option String → Option (List String) → Document

-- `serde_json::to_vec(..).ok()`, and the hexadecimal hashes of bytes and of canonical JSON.
pub record Serializer : Type 0 where
  pub to_vec : Document → Option (List ℕ)
  pub bytes_sha256 : List ℕ → String
  pub canonical_json_sha256 : Document → String
