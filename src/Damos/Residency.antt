-- ===== src/Damos/Residency.antt =====
-- Pagemap entries and the residency of a range (crates/damos/src/lib.rs). Sums and products of 64
-- bits wrap, as in a release build.
pub mod Accounting
use nemor.Base.{
  ℕ, ◌+◌, ◌-◌, ◌*◌, ◌/◌, ◌%◌, ◌^◌, Bool, not, ◌&&◌, ◌||◌, String, Option, List, ltb, leb, ◌==◌,
  str_eq, all, unwrap_or, reject,
}
use nemor.Damon.Ranges.{AddressRange, overlap}
use nemor.Damos.Types.{DamosStats, DamosBeforeApplyEvent, Checked, invalid}

pub record PagemapPageState : Type 0 where
  pub present : Bool
  pub swapped : Bool

-- `entry & (1 << bit) != 0`.
abbrev bit_set : ℕ → ℕ → Bool
bit_set entry bit = entry / 2 ^ bit % 2 == 1

unfoldable pub parse_pagemap_entry : ℕ → PagemapPageState
parse_pagemap_entry entry = record { present = bit_set entry 63; swapped = bit_set entry 62 }

pub record RangeResidencySnapshot : Type 0 where
  pub range_start : ℕ
  pub range_end : ℕ
  pub range_size_bytes : ℕ
  pub page_size : ℕ
  pub total_pages : ℕ
  pub present_pages : ℕ
  pub present_bytes : ℕ
  pub swapped_pages : ℕ
  pub swapped_bytes : ℕ
  pub not_present_not_swapped_pages : ℕ
  pub read_errors : ℕ
  pub timestamp_ns : ℕ
  pub source : String

abbrev pub wrap : ℕ → ℕ
wrap n = n % 18446744073709551616

unfoldable pub validate_snapshot : RangeResidencySnapshot → Checked
validate_snapshot s =
    reject
      (leb s.range_end s.range_start
        || ((s.page_size == 0)
            || (not (s.range_size_bytes == s.range_end - s.range_start)
                || (not (s.total_pages == s.range_size_bytes / s.page_size)
                    || (not (
                          wrap (
                            wrap (s.present_pages + s.swapped_pages)
                            + s.not_present_not_swapped_pages)
                          == s.total_pages)
                        || (not (s.present_bytes == wrap (s.present_pages * s.page_size))
                            || (not (s.swapped_bytes == wrap (s.swapped_pages * s.page_size))
                                || (not (s.read_errors == 0)
                                    || not (str_eq s.source "proc_pagemap")))))))))
      (invalid "invalid exact-range pagemap snapshot")

pub record ZoneRangeEvidence : Type 0 where
  pub before : RangeResidencySnapshot
  pub after_pageout : RangeResidencySnapshot
  pub after_refault : Option RangeResidencySnapshot

pub record RangeReclaimEvidence : Type 0 where
  pub hot : ZoneRangeEvidence
  pub warm : ZoneRangeEvidence
  pub cold : ZoneRangeEvidence

pub record VmaReclaimEvidence : Type 0 where
  pub containing_vma_start : ℕ
  pub containing_vma_end : ℕ
  pub containing_vma_shared : Bool
  pub rss_before : ℕ
  pub rss_after_pageout : ℕ
  pub pss_before : ℕ
  pub pss_after_pageout : ℕ
  pub swap_before : ℕ
  pub swap_after_pageout : ℕ

pub record ReclaimEvidence : Type 0 where
  pub stats : DamosStats
  pub vma : VmaReclaimEvidence
  pub ranges : RangeReclaimEvidence

unfoldable pub range_reclaim_observed : RangeResidencySnapshot → RangeResidencySnapshot → Bool
range_reclaim_observed before after =
    ltb after.present_bytes before.present_bytes || ltb before.swapped_bytes after.swapped_bytes

unfoldable pub range_not_reclaimed :
    RangeResidencySnapshot
    → RangeResidencySnapshot
    → List DamosBeforeApplyEvent
    → AddressRange
    → Bool
range_not_reclaimed before after candidates range =
    all (λ candidate. overlap candidate.range range == 0) candidates
    && (leb before.present_bytes after.present_bytes
        && leb after.swapped_bytes before.swapped_bytes)

unfoldable pub observed : ReclaimEvidence → Bool
observed e =
    ltb 0 (unwrap_or e.stats.sz_applied 0)
    && range_reclaim_observed e.ranges.cold.before e.ranges.cold.after_pageout

pub record TriedRegionsLifecycle : Type 0 where
  pub stale_clear_ns : ℕ
  pub arm_ns : ℕ
  pub observed_interval_start_ns : ℕ
  pub read_ns : ℕ
  pub final_clear_ns : ℕ

unfoldable pub valid : TriedRegionsLifecycle → Bool
valid l =
    leb l.stale_clear_ns l.arm_ns
    && (leb l.arm_ns l.observed_interval_start_ns
        && (ltb l.observed_interval_start_ns l.read_ns && leb l.read_ns l.final_clear_ns))
