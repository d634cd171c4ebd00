-- ===== src/Zram/Metrics.antt =====
-- The metrics of a device (crates/zram/src/metrics.rs).
use nemor.Base.{ℕ, ◌-◌, Option, none, some, ltb, ◌==◌, if◌then◌else◌}
use nemor.Base.Float.{Float}
use nemor.Zram.Types.{MmStat}

pub record CompressionMetrics (F : Type 0) : Type 0 where
  pub logical_compression_ratio : Option F
  pub effective_memory_ratio : Option F
  pub allocator_efficiency : Option F
  pub memory_saved_bytes : Option ℕ
  pub utilization_percent : Option F
  pub same_pages : Option ℕ
  pub huge_pages : Option ℕ
  pub cpu_cost_percent : Option F

-- `orig.zip(used).map(|(orig, used)| orig.saturating_sub(used))`.
saved : Option ℕ → Option ℕ → Option ℕ
saved none used = none
saved (some orig) none = none
saved (some orig) (some used) = some (orig - used)

module _ {F : Type 0} (fl : Float F) where
  unfoldable pub ratio : Option ℕ → Option ℕ → Option F
  ratio none denominator = none
  ratio (some numerator) none = none
  ratio (some numerator) (some denominator) =
      if denominator == 0 then none else some (fl.div (fl.of_nat numerator) (fl.of_nat denominator))

  -- `percent` of two values that are known.
  unfoldable pub percent_of : Option ℕ → Option ℕ → Option F
  percent_of none total = none
  percent_of (some value) none = none
  percent_of (some value) (some total) =
      if ltb 0 total
      then some (fl.div (fl.mul (fl.of_nat value) (fl.of_nat 100)) (fl.of_nat total))
      else none

  unfoldable pub from_mm_stat : MmStat → Option ℕ → CompressionMetrics F
  unfolding saved
  from_mm_stat stat disksize = record {
    logical_compression_ratio = ratio stat.orig_data_size stat.compr_data_size;
    effective_memory_ratio = ratio stat.orig_data_size stat.mem_used_total;
    allocator_efficiency = ratio stat.compr_data_size stat.mem_used_total;
    memory_saved_bytes = saved stat.orig_data_size stat.mem_used_total;
    utilization_percent = percent_of stat.orig_data_size disksize;
    same_pages = stat.same_pages;
    huge_pages = stat.huge_pages;
    cpu_cost_percent = none;
  }
