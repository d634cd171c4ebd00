-- ===== src/Ksm/BasePages.antt =====
-- `verify_base_page_scope` (crates/ksm/src/lib.rs): a range is mapped by base pages only.
pub mod Passed
use nemor.Base.{
  ℕ, Bool, true, false, not, ◌&&◌, ◌||◌, String, Option, none, some, List, [], ◌∷◌, ◌-◌, ◌%◌, min,
  max, ltb, leb, ◌==◌, all, is_empty, push_if, sort_by, if◌then◌else◌, opt_eq, saturating_add,
}
use nemor.Base.Chars.{Chars}
use nemor.Ksm.Smaps.{AddressRange, SmapsArea, len, is_valid, has_flag, parse_smaps_areas}

pub record SmapsRangeOverlap : Type 0 where
  pub vma_start : ℕ
  pub vma_end : ℕ
  pub overlap_start : ℕ
  pub overlap_end : ℕ
  pub overlap_bytes : ℕ
  pub kernel_page_size_bytes : Option ℕ
  pub mmu_page_size_bytes : Option ℕ
  pub anon_huge_pages_bytes : Option ℕ
  pub thp_eligible : Option Bool
  pub vm_flags : List Chars

pub record BasePageScopeEvidence : Type 0 where
  pub range : AddressRange
  pub host_page_size : ℕ
  pub start_aligned : Bool
  pub end_aligned : Bool
  pub length_aligned : Bool
  pub covered_bytes : ℕ
  pub full_coverage : Bool
  pub no_hugepage : Bool
  pub non_mergeable : Bool
  pub base_page_sizes : Bool
  pub anon_huge_pages_zero : Bool
  pub overlaps : List SmapsRangeOverlap
  pub passed : Bool
  pub failure_reasons : List String

abbrev pub overlap_with : AddressRange → SmapsArea → SmapsRangeOverlap
overlap_with range area =
    let start = max area.range.start range.start in
    let end = min area.range.end range.end in
    record {
      vma_start = area.range.start;
      vma_end = area.range.end;
      overlap_start = start;
      overlap_end = end;
      overlap_bytes = end - start;
      kernel_page_size_bytes = area.kernel_page_size_bytes;
      mmu_page_size_bytes = area.mmu_page_size_bytes;
      anon_huge_pages_bytes = area.anon_huge_pages_bytes;
      thp_eligible = area.thp_eligible;
      vm_flags = area.vm_flags;
    }

unfoldable pub overlaps_of : AddressRange → List SmapsArea → List SmapsRangeOverlap
overlaps_of range [] = []
overlaps_of range (area ∷ areas) =
    if ltb (max area.range.start range.start) (min area.range.end range.end)
    then overlap_with range area ∷ overlaps_of range areas
    else overlaps_of range areas

-- The address covered without a gap, and the bytes covered.
unfoldable pub cover : ℕ → ℕ → List SmapsRangeOverlap → ℕ × ℕ
cover cursor bytes [] = (cursor, bytes)
cover cursor bytes (o ∷ os) =
    let from = max cursor o.overlap_start in
    let grows = ltb from o.overlap_end in
    let rest =
      cover (if grows then o.overlap_end else cursor)
        (if grows then saturating_add bytes (o.overlap_end - from) else bytes) os in
    if ltb cursor o.overlap_start then (cursor, bytes) else rest

abbrev pub aligned : ℕ → ℕ → Bool
aligned page address = ltb 0 page && (address % page == 0)

-- `!overlaps.is_empty() && overlaps.iter().all(..)`.
abbrev pub each : (SmapsRangeOverlap → Bool) → List SmapsRangeOverlap → Bool
each test os = not (is_empty os) && all test os

abbrev pub has_base_pages : ℕ → SmapsRangeOverlap → Bool
has_base_pages page o =
    opt_eq o.kernel_page_size_bytes (some page) && opt_eq o.mmu_page_size_bytes (some page)

unfoldable pub failures : (aligned coverage sizes anon nohuge mergeable_early : Bool) → List String
failures aligned coverage sizes anon nohuge mergeable_early =
    let r1 = push_if (not aligned) "owned_range_not_page_aligned" [] in
    let r2 = push_if (not coverage) "smaps_range_coverage_gap" r1 in
    let r3 = push_if (not sizes) "base_page_size_mismatch" r2 in
    let r4 = push_if (not anon) "anon_huge_pages_nonzero_or_missing" r3 in
    let r5 = push_if (not nohuge) "nohugepage_flag_missing" r4 in
    push_if mergeable_early "mergeable_before_audit" r5

unfoldable pub full_coverage : AddressRange → ℕ × ℕ → Bool
full_coverage range (cursor, bytes) =
    is_valid range && (leb range.end cursor && (bytes == len range))

unfoldable pub base_page_scope : List SmapsArea → AddressRange → ℕ → Bool → BasePageScopeEvidence
unfolding overlaps_of cover failures full_coverage
base_page_scope areas range page require_non_mergeable =
    let os = sort_by (λ o. o.overlap_start) (overlaps_of range areas) in
    let start_ok = aligned page range.start in
    let end_ok = aligned page range.end in
    let length_ok = aligned page (len range) in
    let covered = cover range.start 0 os in
    let coverage = full_coverage range covered in
    let nohuge = each (λ o. has_flag "nh" o.vm_flags) os in
    let plain = each (λ o. not (has_flag "mg" o.vm_flags)) os in
    let sizes = each (has_base_pages page) os in
    let anon = each (λ o. opt_eq o.anon_huge_pages_bytes (some 0)) os in
    let reasons =
      failures (start_ok && (end_ok && length_ok)) coverage sizes anon nohuge
        (require_non_mergeable && not plain) in
    record {
      range = range;
      host_page_size = page;
      start_aligned = start_ok;
      end_aligned = end_ok;
      length_aligned = length_ok;
      covered_bytes = covered.1;
      full_coverage = coverage;
      no_hugepage = nohuge;
      non_mergeable = plain;
      base_page_sizes = sizes;
      anon_huge_pages_zero = anon;
      overlaps = os;
      passed = is_empty reasons;
      failure_reasons = reasons;
    }

unfoldable pub verify_base_page_scope : Chars → AddressRange → ℕ → Bool → BasePageScopeEvidence
unfolding base_page_scope
verify_base_page_scope smaps = base_page_scope (parse_smaps_areas smaps)
