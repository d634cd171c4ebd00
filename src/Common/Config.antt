-- ===== src/Common/Config.antt =====
-- The configuration sections that the modelled crates read (crates/common/src/config.rs).
use nemor.Base.{ℕ, Bool, String, Option, List}

pub record CgroupsConfig : Type 0 where
  pub enabled : Bool
  pub dry_run : Bool
  pub allow_move : Bool
  pub rollback_on_exit : Bool
  pub recover_unclean_session : Bool
  pub foreground_min_percent : ℕ
  pub foreground_max_percent : ℕ
  pub background_high_min_percent : ℕ
  pub background_high_max_percent : ℕ
  pub minimum_headroom_percent : ℕ
  pub allowed_identities : List String

pub record ClassificationConfig (F : Type 0) : Type 0 where
  pub interval_ms : ℕ
  pub minimum_confidence : F
  pub confirmation_samples : ℕ
  pub browser_heavy_process_count : ℕ
  pub browser_heavy_memory_percent : F
  pub virtualization_memory_percent : F
  pub gaming_background_memory_percent : F
  pub protected_executables : List String
  pub critical_executables : List String
  pub game_executables : List String

pub record PressureConfig (F : Type 0) : Type 0 where
  pub watch_available_percent : ℕ
  pub pressure_available_percent : ℕ
  pub critical_available_percent : ℕ
  pub emergency_available_percent : ℕ
  pub psi_some_avg10_threshold : F
  pub psi_full_avg10_threshold : F
  pub emergency_psi_full_avg10_threshold : F
  pub major_fault_rate_threshold : F
  pub swap_in_rate_threshold : F
  pub swap_out_rate_threshold : F
  pub state_hold_seconds : ℕ
  pub recovery_hold_seconds : ℕ

pub record CompressionConfig (F : Type 0) : Type 0 where
  pub backend : String
  pub preferred_low_latency : String
  pub preferred_capacity : String
  pub enabled : Bool
  pub active_profile : String
  pub dry_run : Bool
  pub allow_runtime_reconfigure : Bool
  pub allow_persistent_reconfigure : Bool
  pub max_zram_percent_ram : ℕ
  pub safe_headroom_percent : ℕ
  pub benchmark_enabled : Bool
  pub benchmark_max_bytes : ℕ
  pub max_cpu_overhead_percent : F
  pub min_capacity_gain_percent : F

pub record TieringConfig (F : Type 0) : Type 0 where
  pub enabled : Bool
  pub dry_run : Bool
  pub preferred_backend : String
  pub allow_runtime_reconfigure : Bool
  pub allow_persistent_reconfigure : Bool
  pub allow_swapfile_create : Bool
  pub supported_storage_profiles : List String
  pub max_swapfile_percent_disk : ℕ
  pub min_free_disk_gib : ℕ
  pub max_write_mib_per_second : ℕ
  pub daily_write_budget_gib : ℕ
  pub benchmark_enabled : Bool
  pub benchmark_max_bytes : ℕ
  pub zswap_pool_min_percent : ℕ
  pub zswap_pool_max_percent : ℕ
  pub allow_shrinker : Bool
  pub rated_tbw : Option F
  pub comparison_enabled : Bool
  pub comparison_max_latency_regression_percent : ℕ
  pub comparison_min_useful_benefit_percent : ℕ
  pub comparison_accepted_confidence : Option String
