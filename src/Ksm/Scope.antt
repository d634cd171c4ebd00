-- ===== src/Ksm/Scope.antt =====
-- Which part of an address range the mappings of a process cover, and how
-- (crates/ksm/src/lib.rs).
pub mod Coverage
pub mod Exact
pub mod Completeness
use nemor.Base.{
  ℕ, Bool, true, false, not, ◌&&◌, ◌||◌, String, Option, none, some, List, [], ◌∷◌, ◌-◌, ◌+◌, ◌%◌,
  ◌^◌, min, max, ltb, leb, ◌==◌, all, filter, is_empty, push_if, map, sort_by, if◌then◌else◌,
  opt_eq, saturating_add,
}
use nemor.Base.Chars.{Chars}
use nemor.Ksm.Smaps.{AddressRange, SmapsArea, len, is_valid, has_flag, parse_smaps_areas}

-- The loop over the sorted areas, from the address that is covered so far.
unfoldable pub cover_loop : (SmapsArea → Bool) → ℕ → ℕ → List SmapsArea → Bool
cover_loop predicate end cursor [] = false
cover_loop predicate end cursor (area ∷ areas) =
    let cursor' = max cursor (min area.range.end end) in
    let rest = cover_loop predicate end cursor' areas in
    if ltb cursor area.range.start || not (predicate area)
    then false
    else if cursor' == end
    then true
    else rest

abbrev pub is_relevant : AddressRange → SmapsArea → Bool
is_relevant requested area =
    ltb requested.start area.range.end && ltb area.range.start requested.end

abbrev pub start_of : SmapsArea → ℕ
start_of area = area.range.start

unfoldable pub fully_covered_with : AddressRange → List SmapsArea → (SmapsArea → Bool) → Bool
fully_covered_with requested areas predicate =
    if is_valid requested
    then cover_loop predicate requested.end requested.start
        (sort_by start_of (filter (is_relevant requested) areas))
    else false

pub record MergeableScopeEvidence : Type 0 where
  pub duplicate_fully_mergeable : Bool
  pub duplicate_fully_nohugepage : Bool
  pub control_fully_non_mergeable : Bool
  pub control_fully_nohugepage : Bool
  pub unexpected_mergeable_bytes : ℕ
  pub passed : Bool

-- The bytes of an area outside the duplicate range.
abbrev pub unexpected_bytes : AddressRange → SmapsArea → ℕ
unexpected_bytes duplicate area =
    len area.range - (min area.range.end duplicate.end - max area.range.start duplicate.start)

-- `iter().filter().map().sum()`, which wraps.
unfoldable pub unexpected_sum : AddressRange → List SmapsArea → ℕ
unexpected_sum duplicate [] = 0
unexpected_sum duplicate (area ∷ areas) =
    ((if area.mergeable then unexpected_bytes duplicate area else 0)
      + unexpected_sum duplicate areas)
    % 2 ^ 64

unfoldable pub exact_scope : List SmapsArea → AddressRange → AddressRange → MergeableScopeEvidence
unfolding fully_covered_with unexpected_sum
exact_scope areas duplicate control =
    let mergeable = fully_covered_with duplicate areas (λ area. area.mergeable) in
    let nohugepage = fully_covered_with duplicate areas (λ area. area.no_hugepage) in
    let control_plain = fully_covered_with control areas (λ area. not area.mergeable) in
    let control_nohugepage = fully_covered_with control areas (λ area. area.no_hugepage) in
    let unexpected = unexpected_sum duplicate areas in
    record {
      duplicate_fully_mergeable = mergeable;
      duplicate_fully_nohugepage = nohugepage;
      control_fully_non_mergeable = control_plain;
      control_fully_nohugepage = control_nohugepage;
      unexpected_mergeable_bytes = unexpected;
      passed =
          mergeable && (nohugepage && (control_plain && (control_nohugepage && (unexpected == 0))));
    }

unfoldable pub verify_exact_mergeable_scope :
    Chars → AddressRange → AddressRange → MergeableScopeEvidence
unfolding exact_scope
verify_exact_mergeable_scope smaps = exact_scope (parse_smaps_areas smaps)

abbrev pub is_plain : SmapsArea → Bool
is_plain area = not area.mergeable && area.no_hugepage

unfoldable pub verify_exact_unmergeable_scope : Chars → AddressRange → AddressRange → Bool
verify_exact_unmergeable_scope smaps duplicate control =
    let areas = parse_smaps_areas smaps in
    fully_covered_with duplicate areas is_plain && fully_covered_with control areas is_plain
