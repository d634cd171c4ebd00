-- ===== src/Zram/Types.antt =====
-- Devices, plans and errors (crates/zram/src/inventory.rs, benchmark.rs, profile.rs, error.rs). A
-- path is its text.
use nemor.Base.{ℕ, Bool, true, false, String, ◌+++◌, Option, List}
use nemor.Base.Integer.{ℤ}

pub data Provider : Type 0 where
  systemd_generator distro_udev manual unknown : Provider

pub data Ownership : Type 0 where
  nemor_owned adopted external unknown : Ownership

-- `matches!(ownership, NemorOwned | Adopted)`.
unfoldable pub is_explicit : Ownership → Bool
is_explicit nemor_owned = true
is_explicit adopted = true
is_explicit _ = false

pub record WritableCapabilities : Type 0 where
  pub hot_add : Bool
  pub hot_remove : Bool
  pub algorithm : Bool
  pub disksize : Bool
  pub reset : Bool

pub record MmStat : Type 0 where
  pub orig_data_size : Option ℕ
  pub compr_data_size : Option ℕ
  pub mem_used_total : Option ℕ
  pub mem_limit : Option ℕ
  pub mem_used_max : Option ℕ
  pub same_pages : Option ℕ
  pub pages_compacted : Option ℕ
  pub huge_pages : Option ℕ
  pub huge_pages_since : Option ℕ

pub record DeviceInventory : Type 0 where
  pub name : String
  pub sysfs_path : String
  pub device_path : String
  pub active_swap : Bool
  pub priority : Option ℤ
  pub disksize : Option ℕ
  pub initstate : Option Bool
  pub current_algorithm : Option String
  pub available_algorithms : List String
  pub mm_stat : MmStat
  pub io_stat : Option (List ℕ)
  pub block_stat : Option (List ℕ)
  pub bd_stat : Option (List ℕ)
  pub recompression_available : Bool
  pub provider : Provider
  pub ownership : Ownership
  pub writable : WritableCapabilities

pub record Inventory : Type 0 where
  pub available : Bool
  pub devices : List DeviceInventory
  pub unavailable : List String

pub record BenchmarkEvidence (F : Type 0) : Type 0 where
  pub algorithm : String
  pub median_write_throughput_bytes_sec : Option F
  pub median_effective_ratio : Option F
  pub median_cpu_time_ns : Option ℕ
  pub cpu_overhead_percent : Option F
  pub datasets : ℕ
  pub real : Bool

pub data ZramProfile : Type 0 where
  safe gaming capacity : ZramProfile

pub record ZramProfilePlan (F : Type 0) : Type 0 where
  pub profile : ZramProfile
  pub target_device : String
  pub current_algorithm : Option String
  pub selected_algorithm : Option String
  pub current_disksize : Option ℕ
  pub proposed_disksize : Option ℕ
  pub current_priority : Option ℤ
  pub proposed_priority : Option ℤ
  pub benchmark_evidence : List (BenchmarkEvidence F)
  pub reason : String
  pub confidence : F
  pub requires_reinitialization : Bool
  pub requires_swap_migration : Bool
  pub allowed : Bool
  pub blocked_reasons : List String
  pub dry_run : Bool
  pub rule_version : String

-- The source of a read error is the text that its `Display` gives.
pub data ZramError : Type 0 where
  read : (path source : String) → ZramError
  parse : (field message : String) → ZramError
  blocked : String → ZramError
  backend : (operation message : String) → ZramError
  verification : String → ZramError

-- The `Display` that `thiserror` derives.
unfoldable pub error_text : ZramError → String
error_text (read path source) = "cannot read zram interface " +++ (path +++ (": " +++ source))
error_text (parse field message) = "invalid zram field `" +++ (field +++ ("`: " +++ message))
error_text (blocked s) = "zram operation blocked: " +++ s
error_text (backend operation message) =
    "zram backend operation `" +++ (operation +++ ("` failed: " +++ message))
error_text (verification s) = "zram verification failed: " +++ s
