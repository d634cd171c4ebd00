-- ===== src/Tiering/Inventory.antt =====
-- What is known of zswap (crates/tiering/src/inventory.rs), as data; it is read from files.
use nemor.Base.{ℕ, Bool, String, Option, List}

pub record ZswapParameters : Type 0 where
  pub enabled : Option Bool
  pub compressor : Option String
  pub zpool : Option String
  pub max_pool_percent : Option ℕ
  pub accept_threshold_percent : Option ℕ
  pub shrinker_enabled : Option Bool
  pub same_filled_pages_enabled : Option Bool
  pub non_same_filled_pages_enabled : Option Bool

pub record DebugCounter : Type 0 where
  pub name : String
  pub value : Option ℕ

pub record ProviderState : Type 0 where
  pub kernel_cmdline_zswap : List String
  pub systemd_zram : Bool
  pub zram_generator_vendor_config : Bool
  pub zram_generator_etc_config : Bool
  pub cachyos_zswap_disable_rule : Bool
  pub persistence_sources : List String
  pub conflict : Bool
  pub bootloader : Option String
  pub command_line_source : Option String
  pub systemd_boot : Bool

pub record ZswapInventory : Type 0 where
  pub supported : Bool
  pub parameters : ZswapParameters
  pub parameter_writable : List (String × Bool)
  pub debugfs_available : Bool
  pub debug_counters : List DebugCounter
  pub cgroup_values : List (String × String)
  pub provider : ProviderState
  pub unavailable : List String
  pub dry_run : Bool
