-- ===== src/Examples/BootHost.antt =====
-- A manifest and observations of the boot validation, for the examples.
use nemor.Base.{Bool, true, false, none, some, [], not}
use nemor.Base.Integer.{pos}
use nemor.Base.{Result, ok, String}
use nemor.Base.Proc.{Proc}
use nemor.Tiering.Boot.Interface.{BootLifecycleBackend, Serializer}
use nemor.Tiering.Boot.Types.{
  BootValidationError, StorageProfile, BinaryIdentity, StagedBinaryPlan, PhysicalDeviceIdentity,
  FilesystemIdentity, StorageTopologyIdentity, SwapIdentity, ZramIdentity, ZswapIdentity,
  BootEntryIdentity, BootIdentity, WorkloadContract, PreparedManifestPayload, PreparedManifest,
  BaselineRestoreObservation,
}
use nemor.Tiering.Boot.Observations.{
  PreflightObservation, BaselineMeasurementObservation, RuntimeObserveOnlyEvidence,
  ActualPostBootObservation,
}

abbrev pub binary : BinaryIdentity
binary = record { path = ""; sha256 = ""; embedded_commit = "" }

abbrev pub helper_plan : StagedBinaryPlan
helper_plan = record {
  source = binary;
  destination = "";
  destination_mode = 0;
  destination_uid = 0;
  destination_gid = 0;
  require_single_link = true;
  source_uid = 0;
  source_gid = 0;
  source_mode = 0;
  source_link_count = 0;
  source_device = 0;
  source_inode = 0;
}

abbrev pub disk : PhysicalDeviceIdentity
disk = record {
  path = "";
  major = 0;
  minor = 0;
  transport = "";
  rotational = true;
  model = "";
  serial = none;
  wwn = none;
  capacity_bytes = 0;
  logical_block_size = 0;
  physical_block_size = 0;
}

abbrev pub root_filesystem : FilesystemIdentity
root_filesystem = record {
  filesystem = "";
  uuid_or_fsid = "";
  mount_source = "";
  mount_point = "";
  mount_id = 0;
  device_major = 0;
  device_minor = 0;
}

abbrev pub topology : StorageTopologyIdentity
topology = record {
  storage_profile_version = "";
  profile = StorageProfile.nvme_ssd;
  chain = [];
  physical = disk;
  filesystem = root_filesystem;
  composite = true;
  ambiguous = true;
  confidence = "";
}

abbrev pub swap : SwapIdentity
swap = record {
  path = "/var/lib/nemor/swapfile";
  kind = "";
  size_bytes = 0;
  priority = pos 0;
  uuid = none;
  active = false;
}

abbrev pub zram : ZramIdentity
zram = record {
  device = "";
  provider = "";
  active = true;
  priority = pos 0;
  disksize_bytes = 0;
  compressor = "";
  memory_limit_bytes = 0;
  unit = "";
}

abbrev pub zswap : ZswapIdentity
zswap = record { parameters = [] }

abbrev pub entry : BootEntryIdentity
entry = record {
  id = "";
  path = "";
  sha256 = "";
  title = "";
  linux_or_efi = "";
  initrds = [];
  options = "";
}

abbrev pub boot : BootIdentity
boot = record {
  bootloader = "";
  bootloader_version = "";
  current_entry = entry;
  default_entry = entry;
  boot_order = [];
  prior_one_shot = none;
  esp_mount = "";
  esp_device = "";
  esp_filesystem = "";
  esp_uuid = "";
  esp_mount_id = 0;
  esp_device_major = 0;
  esp_device_minor = 0;
  secure_boot = "";
  kernel_release = "";
  referenced_files = [];
  current_command_line = "";
}

abbrev pub workload : WorkloadContract
workload = record {
  protocol = "";
  seed = 0;
  bytes = 0;
  iterations = 0;
  timeout_seconds = 0;
  maximum_write_bytes = 0;
}

abbrev pub payload : PreparedManifestPayload
payload = record {
  contract_version = "";
  rule_version = "";
  validation_id = "validation-1";
  prepared_uid = 0;
  prepared_gid = 0;
  source_commit = "";
  source_state_sha256 = "";
  binaries = [];
  config_path = "";
  config_sha256 = "";
  material_environment_sha256 = "";
  topology = topology;
  baseline_swaps = [];
  protected_zram = zram;
  baseline_zswap = zswap;
  experimental_zswap = [];
  boot = boot;
  experimental_entry = entry;
  validation_marker = "";
  swapfile = swap;
  owned_artifacts = [];
  transaction_root = "";
  workload = workload;
  staged_helper = helper_plan;
  recovery_entry = "";
  production_activation = false;
}

abbrev pub manifest : PreparedManifest
manifest = record { schema = ""; payload = payload; payload_sha256 = "" }

abbrev pub restored : BaselineRestoreObservation
restored = record {
  schema = "";
  boot_id = "";
  booted_entry = "";
  command_line = "";
  zswap = zswap;
  protected_zram = zram;
  swaps = [];
  default_entry = "";
  boot_order = [];
  one_shot = none;
  production_activation = true;
}

abbrev pub preflight : PreflightObservation
preflight = record {
  schema = "tiering-boot-preflight-v6";
  uid = 0;
  gid = 0;
  sudo_uid = some 0;
  sudo_gid = some 0;
  host_identity_sha256 = "";
  source_matches = true;
  binaries_match = true;
  config_matches = true;
  topology_matches = true;
  boot_matches = true;
  bootloader_type_matches = true;
  bootloader_version_matches = true;
  current_entry_semantics_match = true;
  current_entry_hash_matches = true;
  current_entry_path_matches = true;
  default_entry_semantics_match = true;
  default_entry_hash_matches = true;
  default_entry_path_matches = true;
  referenced_boot_files_match = true;
  kernel_release_matches = true;
  command_line_matches = true;
  esp_device_matches = true;
  esp_filesystem_matches = true;
  esp_uuid_matches = true;
  esp_mount_matches = true;
  boot_order_matches = true;
  one_shot_matches = true;
  zram_matches = true;
  zswap_matches = true;
  parents_safe = true;
  transaction_hierarchy_safe = true;
  staged_source_binary_matches = true;
  validation_destinations_absent = true;
  esp_free_bytes = 1048576;
  swap_free_bytes = 67108864;
  package_update_absent = true;
  secure_boot_compatible = true;
  ac_power = none;
  stale_state_absent = true;
  validation_process_absent = true;
  unrelated_mutation_absent = true;
  mutation_count = 0;
  ready = true;
}

abbrev pub measured : BaselineMeasurementObservation
measured = record {
  schema = "tiering-zram-baseline-v4";
  validation_id = "validation-1";
  boot_id = "boot-1";
  zram = zram;
  zswap = zswap;
  swaps = [];
  workload_protocol = "tiering-bounded-workload-v3";
  workload_sha256 = "0123456789abcdef0123456789abcdef0123456789abcdef0123456789abcdef";
  bytes_touched = 4096;
  latency_ns = some 10;
  cgroup_oom_delta = some 0;
  cgroup_oom_kill_delta = some 0;
  content_verified = true;
  cleanup_passed = true;
  scope_absent = true;
  production_activation = false;
}

abbrev pub runtime : RuntimeObserveOnlyEvidence
runtime = record {
  config_sha256 = "";
  configured_observe_only = true;
  nemord_active = true;
  nemord_binary = none;
  effective_mode = none;
  production_tiering_unit_absent = true;
  unexpected_nemor_units = [];
  unexpected_nemor_cgroups = [];
  production_activation = true;
}

abbrev pub post_boot : ActualPostBootObservation
post_boot = record {
  schema = "";
  boot_id = "";
  booted_entry = "";
  command_line = "";
  kernel_release = "";
  zswap = zswap;
  swaps = [];
  protected_zram = zram;
  topology = topology;
  unit_active = true;
  workload_scope_absent = true;
  daemon_observe_only = true;
  production_activation = true;
  zswap_counters = [];
  zswap_counters_before = [];
  zswap_counter_deltas = [];
  cgroup_path = "";
  workload_pid = 0;
  workload_start_ticks = 0;
  workload_ready = true;
  workload_started = true;
  workload_stopped = true;
  progress_steps = 0;
  cgroup_oom_delta = none;
  cgroup_oom_kill_delta = none;
  host_oom_kill_delta = none;
  memory_current_bytes = none;
  memory_peak_bytes = none;
  swap_current_bytes = none;
  scoped_psi_some_micros = none;
  block_write_bytes = none;
  block_write_attribution = "";
  latency_ns = none;
  bytes_touched = 0;
  throughput_bytes_per_second = none;
  compression_ratio_milli = none;
  refault_observed = true;
  refault_content_verified = true;
  oom = true;
  oom_kill = true;
  workload_completed = true;
  workload_timeout = true;
  runtime_observation = runtime;
}

abbrev done : {B : Type 0} → Proc B String (Unit {0})
done b = (b, ok tt)

-- A host of which only the presence of the swapfile is kept.
abbrev pub host : BootLifecycleBackend Bool
host = record {
  persist_transaction = λ _. done;
  create_transaction_root = λ _. done;
  copy_prepared_manifest = λ _. done;
  persist_evidence = λ _ _. done;
  create_swapfile = λ m b. (true, ok m.payload.swapfile);
  create_artifact = λ _. done;
  stage_helper = λ _. done;
  staged_helper_matches = λ _ _. true;
  artifact_matches = λ _ _. true;
  artifact_absent = λ _ _. true;
  sync_parents = λ _. done;
  remove_artifact = λ _. done;
  remove_swapfile = λ _ b. (false, ok tt);
  swapfile_absent = λ b _. not b;
  finalize_runtime_cleanup = λ _. done;
  set_one_shot = λ _. done;
  read_one_shot = λ _. some "";
  permanent_default = λ _. some "";
  boot_order = λ _. some [];
  collect_zram_baseline = λ _ b. (b, ok measured);
  collect_post_boot = λ _ b. (b, ok post_boot);
  collect_baseline = λ _ _. some restored;
  seal_archive = λ _. done;
}

abbrev pub serial : Serializer
serial = record {
  to_vec = λ _. some [];
  bytes_sha256 = λ _. "bytes";
  canonical_json_sha256 = λ _. "document";
}

abbrev pub accepts : PreparedManifest → Result BootValidationError (Unit {0})
accepts _ = ok tt
