-- ===== src/Tiering/Boot/Types.antt =====
-- The manifest, the identities and the errors of a boot validation
-- (crates/tiering/src/boot_validation_v6.rs). A path is its text.
use nemor.Base.{ℕ, Bool, String, Option, List}
use nemor.Base.Integer.{ℤ}

pub data BootValidationError : Type 0 where
  version topology path entry swap zswap payload sudo_identity transition : BootValidationError
  identity preflight readback measurement : String → BootValidationError

pub data StorageProfile : Type 0 where
  nvme_ssd sata_ssd sas_ssd usb_ssd other_non_rotational rotational : StorageProfile
  composite virtual ambiguous : StorageProfile

pub record BinaryIdentity : Type 0 where
  pub path : String
  pub sha256 : String
  pub embedded_commit : String

pub record StagedBinaryPlan : Type 0 where
  pub source : BinaryIdentity
  pub destination : String
  pub destination_mode : ℕ
  pub destination_uid : ℕ
  pub destination_gid : ℕ
  pub require_single_link : Bool
  pub source_uid : ℕ
  pub source_gid : ℕ
  pub source_mode : ℕ
  pub source_link_count : ℕ
  pub source_device : ℕ
  pub source_inode : ℕ

pub record BlockLayerIdentity : Type 0 where
  pub path : String
  pub kind : String
  pub major : ℕ
  pub minor : ℕ
  pub parent : Option String

pub record PhysicalDeviceIdentity : Type 0 where
  pub path : String
  pub major : ℕ
  pub minor : ℕ
  pub transport : String
  pub rotational : Bool
  pub model : String
  pub serial : Option String
  pub wwn : Option String
  pub capacity_bytes : ℕ
  pub logical_block_size : ℕ
  pub physical_block_size : ℕ

pub record FilesystemIdentity : Type 0 where
  pub filesystem : String
  pub uuid_or_fsid : String
  pub mount_source : String
  pub mount_point : String
  pub mount_id : ℕ
  pub device_major : ℕ
  pub device_minor : ℕ

pub record StorageTopologyIdentity : Type 0 where
  pub storage_profile_version : String
  pub profile : StorageProfile
  pub chain : List BlockLayerIdentity
  pub physical : PhysicalDeviceIdentity
  pub filesystem : FilesystemIdentity
  pub composite : Bool
  pub ambiguous : Bool
  pub confidence : String

pub record SwapIdentity : Type 0 where
  pub path : String
  pub kind : String
  pub size_bytes : ℕ
  pub priority : ℤ
  pub uuid : Option String
  pub active : Bool

pub record ZramIdentity : Type 0 where
  pub device : String
  pub provider : String
  pub active : Bool
  pub priority : ℤ
  pub disksize_bytes : ℕ
  pub compressor : String
  pub memory_limit_bytes : ℕ
  pub unit : String

pub record ZswapIdentity : Type 0 where
  pub parameters : List (String × String)

pub record BootEntryIdentity : Type 0 where
  pub id : String
  pub path : String
  pub sha256 : String
  pub title : String
  pub linux_or_efi : String
  pub initrds : List String
  pub options : String

pub record ReferencedBootFile : Type 0 where
  pub path : String
  pub sha256 : String

pub data OwnedArtifactKind : Type 0 where
  type1_entry validation_unit helper_binary : OwnedArtifactKind

pub record OwnedArtifact : Type 0 where
  pub kind : OwnedArtifactKind
  pub path : String
  pub sha256 : String
  pub mode : ℕ
  pub owner_uid : ℕ
  pub owner_gid : ℕ
  pub content : List ℕ

pub record BootIdentity : Type 0 where
  pub bootloader : String
  pub bootloader_version : String
  pub current_entry : BootEntryIdentity
  pub default_entry : BootEntryIdentity
  pub boot_order : List String
  pub prior_one_shot : Option String
  pub esp_mount : String
  pub esp_device : String
  pub esp_filesystem : String
  pub esp_uuid : String
  pub esp_mount_id : ℕ
  pub esp_device_major : ℕ
  pub esp_device_minor : ℕ
  pub secure_boot : String
  pub kernel_release : String
  pub referenced_files : List ReferencedBootFile
  pub current_command_line : String

pub record WorkloadContract : Type 0 where
  pub protocol : String
  pub seed : ℕ
  pub bytes : ℕ
  pub iterations : ℕ
  pub timeout_seconds : ℕ
  pub maximum_write_bytes : ℕ

pub record PreparedManifestPayload : Type 0 where
  pub contract_version : String
  pub rule_version : String
  pub validation_id : String
  pub prepared_uid : ℕ
  pub prepared_gid : ℕ
  pub source_commit : String
  pub source_state_sha256 : String
  pub binaries : List (String × BinaryIdentity)
  pub config_path : String
  pub config_sha256 : String
  pub material_environment_sha256 : String
  pub topology : StorageTopologyIdentity
  pub baseline_swaps : List SwapIdentity
  pub protected_zram : ZramIdentity
  pub baseline_zswap : ZswapIdentity
  pub experimental_zswap : List (String × String)
  pub boot : BootIdentity
  pub experimental_entry : BootEntryIdentity
  pub validation_marker : String
  pub swapfile : SwapIdentity
  pub owned_artifacts : List OwnedArtifact
  pub transaction_root : String
  pub workload : WorkloadContract
  pub staged_helper : StagedBinaryPlan
  pub recovery_entry : String
  pub production_activation : Bool

pub record PreparedManifest : Type 0 where
  pub schema : String
  pub payload : PreparedManifestPayload
  pub payload_sha256 : String

pub record BaselineRestoreObservation : Type 0 where
  pub schema : String
  pub boot_id : String
  pub booted_entry : String
  pub command_line : String
  pub zswap : ZswapIdentity
  pub protected_zram : ZramIdentity
  pub swaps : List SwapIdentity
  pub default_entry : String
  pub boot_order : List String
  pub one_shot : Option String
  pub production_activation : Bool
