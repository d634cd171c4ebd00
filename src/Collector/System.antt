-- ===== src/Collector/System.antt =====
-- The sample of the system (crates/collector/src/system.rs, psi.rs, swap.rs, zram.rs, zswap.rs).
use nemor.Base.{ℕ, Bool, String, Option, List}
use nemor.Base.Integer.{ℤ}

pub record PsiLine (F : Type 0) : Type 0 where
  pub avg10 : F
  pub avg60 : F
  pub avg300 : F
  pub total_us : ℕ

-- The lines `some` and `full`.
pub record PsiSample (F : Type 0) : Type 0 where
  pub some_line : Option (PsiLine F)
  pub full_line : Option (PsiLine F)

pub record SwapEntry : Type 0 where
  pub path : String
  pub kind : String
  pub size_bytes : ℕ
  pub used_bytes : ℕ
  pub priority : ℤ

pub data SwapConfiguration : Type 0 where
  no_swap swapfile partition zram mixed : SwapConfiguration

pub record SwapState : Type 0 where
  pub entries : List SwapEntry
  pub configuration : SwapConfiguration

pub record ZramDevice : Type 0 where
  pub name : String
  pub disk_size_bytes : Option ℕ
  pub algorithm : Option String
  pub original_data_bytes : Option ℕ
  pub compressed_data_bytes : Option ℕ
  pub memory_used_bytes : Option ℕ

pub record ZramState : Type 0 where
  pub available : Bool
  pub devices : List ZramDevice

pub record ZswapState : Type 0 where
  pub available : Bool
  pub enabled : Option Bool
  pub stored_pages : Option ℕ
  pub pool_bytes : Option ℕ

pub record SystemSample (F : Type 0) : Type 0 where
  pub timestamp_ns : ℤ
  pub mem_total_bytes : ℕ
  pub mem_available_bytes : ℕ
  pub anon_bytes : Option ℕ
  pub file_cache_bytes : Option ℕ
  pub slab_bytes : Option ℕ
  pub swap_used_bytes : Option ℕ
  pub swap_in_pages : Option ℕ
  pub swap_out_pages : Option ℕ
  pub major_faults : Option ℕ
  pub minor_faults : Option ℕ
  pub pgscan : Option ℕ
  pub pgsteal : Option ℕ
  pub workingset_refault : Option ℕ
  pub psi_memory : Option (PsiSample F)
  pub psi_cpu : Option (PsiSample F)
  pub psi_io : Option (PsiSample F)
  pub swap : SwapState
  pub zram : ZramState
  pub zswap : ZswapState
  pub capabilities_unavailable : List String
