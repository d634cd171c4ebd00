-- ===== src/Tiering/Boot/Observations.antt =====
-- What the boot validation observes before, in and after the experimental boot
-- (crates/tiering/src/boot_validation_v6.rs).
use nemor.Base.{ℕ, Bool, String, Option, List}
use nemor.Tiering.Boot.Types.{StorageTopologyIdentity, SwapIdentity, ZramIdentity, ZswapIdentity}

pub record PreflightObservation : Type 0 where
  pub schema : String
  pub uid : ℕ
  pub gid : ℕ
  pub sudo_uid : Option ℕ
  pub sudo_gid : Option ℕ
  pub host_identity_sha256 : String
  pub source_matches : Bool
  pub binaries_match : Bool
  pub config_matches : Bool
  pub topology_matches : Bool
  pub boot_matches : Bool
  pub bootloader_type_matches : Bool
  pub bootloader_version_matches : Bool
  pub current_entry_semantics_match : Bool
  pub current_entry_hash_matches : Bool
  pub current_entry_path_matches : Bool
  pub default_entry_semantics_match : Bool
  pub default_entry_hash_matches : Bool
  pub default_entry_path_matches : Bool
  pub referenced_boot_files_match : Bool
  pub kernel_release_matches : Bool
  pub command_line_matches : Bool
  pub esp_device_matches : Bool
  pub esp_filesystem_matches : Bool
  pub esp_uuid_matches : Bool
  pub esp_mount_matches : Bool
  pub boot_order_matches : Bool
  pub one_shot_matches : Bool
  pub zram_matches : Bool
  pub zswap_matches : Bool
  pub parents_safe : Bool
  pub transaction_hierarchy_safe : Bool
  pub staged_source_binary_matches : Bool
  pub validation_destinations_absent : Bool
  pub esp_free_bytes : ℕ
  pub swap_free_bytes : ℕ
  pub package_update_absent : Bool
  pub secure_boot_compatible : Bool
  pub ac_power : Option Bool
  pub stale_state_absent : Bool
  pub validation_process_absent : Bool
  pub unrelated_mutation_absent : Bool
  pub mutation_count : ℕ
  pub ready : Bool

pub record RuntimeBinaryIdentity : Type 0 where
  pub path : String
  pub sha256 : String
  pub pid : ℕ
  pub start_ticks : ℕ

pub record RuntimeObserveOnlyEvidence : Type 0 where
  pub config_sha256 : String
  pub configured_observe_only : Bool
  pub nemord_active : Bool
  pub nemord_binary : Option RuntimeBinaryIdentity
  pub effective_mode : Option String
  pub production_tiering_unit_absent : Bool
  pub unexpected_nemor_units : List String
  pub unexpected_nemor_cgroups : List String
  pub production_activation : Bool

pub record ActualPostBootObservation : Type 0 where
  pub schema : String
  pub boot_id : String
  pub booted_entry : String
  pub command_line : String
  pub kernel_release : String
  pub zswap : ZswapIdentity
  pub swaps : List SwapIdentity
  pub protected_zram : ZramIdentity
  pub topology : StorageTopologyIdentity
  pub unit_active : Bool
  pub workload_scope_absent : Bool
  pub daemon_observe_only : Bool
  pub production_activation : Bool
  pub zswap_counters : List (String × Option ℕ)
  pub zswap_counters_before : List (String × Option ℕ)
  pub zswap_counter_deltas : List (String × Option ℕ)
  pub cgroup_path : String
  pub workload_pid : ℕ
  pub workload_start_ticks : ℕ
  pub workload_ready : Bool
  pub workload_started : Bool
  pub workload_stopped : Bool
  pub progress_steps : ℕ
  pub cgroup_oom_delta : Option ℕ
  pub cgroup_oom_kill_delta : Option ℕ
  pub host_oom_kill_delta : Option ℕ
  pub memory_current_bytes : Option ℕ
  pub memory_peak_bytes : Option ℕ
  pub swap_current_bytes : Option ℕ
  pub scoped_psi_some_micros : Option ℕ
  pub block_write_bytes : Option ℕ
  pub block_write_attribution : String
  pub latency_ns : Option ℕ
  pub bytes_touched : ℕ
  pub throughput_bytes_per_second : Option ℕ
  pub compression_ratio_milli : Option ℕ
  pub refault_observed : Bool
  pub refault_content_verified : Bool
  pub oom : Bool
  pub oom_kill : Bool
  pub workload_completed : Bool
  pub workload_timeout : Bool
  pub runtime_observation : RuntimeObserveOnlyEvidence

pub record BaselineMeasurementObservation : Type 0 where
  pub schema : String
  pub validation_id : String
  pub boot_id : String
  pub zram : ZramIdentity
  pub zswap : ZswapIdentity
  pub swaps : List SwapIdentity
  pub workload_protocol : String
  pub workload_sha256 : String
  pub bytes_touched : ℕ
  pub latency_ns : Option ℕ
  pub cgroup_oom_delta : Option ℕ
  pub cgroup_oom_kill_delta : Option ℕ
  pub content_verified : Bool
  pub cleanup_passed : Bool
  pub scope_absent : Bool
  pub production_activation : Bool
