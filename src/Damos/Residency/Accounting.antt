-- ===== src/Damos/Residency/Accounting.antt =====
-- The accounting of an accepted snapshot (crates/damos/src/lib.rs).
use nemor.Base.{
  ℕ, ◌+◌, ◌-◌, ◌*◌, ◌/◌, ◌≤◌, ◌<◌, ◌≡◌, true, false, List, [], ◌∷◌, arith, All, all, ◌==◌, ok,
  u64_max,
}
use native.Mathlib.Nat.{add-mul, div-mul-le_self, mul-le-mul_right}
use nemor.Damon.Ranges.{AddressRange, Meet, overlap, overlap_pos_iff}
use nemor.Damos.Types.{DamosBeforeApplyEvent}
use nemor.Damos.Residency.{
  RangeResidencySnapshot, validate_snapshot, range_reclaim_observed, range_not_reclaimed, wrap,
}

pages_fit : (a b size page : ℕ) → a + b ≤ size / page → a * page + b * page ≤ size
pages_fit a b size page h =
    omega (arith, mul-le-mul_right page h, div-mul-le_self size page, add-mul a b page)

wrap_of_le : (n : ℕ) → n ≤ u64_max → wrap n ≡ n
wrap_of_le n h = omega arith

-- The tests of an accepted snapshot, with the wraps left in.
record Tests (s : RangeResidencySnapshot) : Type 0 where
  ordered : s.range_start < s.range_end
  size : s.range_size_bytes ≡ s.range_end - s.range_start
  total : s.total_pages ≡ s.range_size_bytes / s.page_size
  sum :
      wrap (wrap (s.present_pages + s.swapped_pages) + s.not_present_not_swapped_pages)
      ≡ s.total_pages
  present : s.present_bytes ≡ wrap (s.present_pages * s.page_size)
  swapped : s.swapped_bytes ≡ wrap (s.swapped_pages * s.page_size)

snapshot-Tests : (s : RangeResidencySnapshot) → validate_snapshot s ≡ ok tt → Tests s
unfolding validate_snapshot
snapshot-Tests s h = ground arith

-- In an accepted snapshot whose three page counts sum to at most 64 bits, of a range that ends
-- within 64 bits, the pages add up to those of the range, and the present and the swapped bytes
-- together fit in the range.
pub snapshot_accounts :
    (s : RangeResidencySnapshot)
    → validate_snapshot s ≡ ok tt
    → s.range_end ≤ u64_max
    → s.present_pages + s.swapped_pages + s.not_present_not_swapped_pages ≤ u64_max
    → (s.range_start < s.range_end)
      × (s.present_pages + s.swapped_pages + s.not_present_not_swapped_pages
          ≡ (s.range_end - s.range_start) / s.page_size)
      × (s.present_bytes + s.swapped_bytes ≤ s.range_end - s.range_start)
snapshot_accounts s h b c =
    let t = snapshot-Tests s h in
    let pages : s.present_pages + s.swapped_pages + s.not_present_not_swapped_pages
        ≡ s.total_pages =
      omega (arith, t.sum) in
    let fit : s.present_pages * s.page_size + s.swapped_pages * s.page_size ≤ s.range_size_bytes =
      pages_fit s.present_pages s.swapped_pages s.range_size_bytes s.page_size
        (omega (arith, t.total)) in
    (
      t.ordered,
      ground (arith, t.size, t.total),
      omega (
        arith,
        t.size,
        t.present,
        t.swapped,
        wrap_of_le (s.present_pages * s.page_size),
        wrap_of_le (s.swapped_pages * s.page_size),
      ),
    )

no_overlap :
    (candidates : List DamosBeforeApplyEvent) (range : AddressRange)
    → all (λ candidate. overlap candidate.range range == 0) candidates ≡ true
    → All (λ e. ¬ Meet e.range range) candidates
no_overlap [] range h = tt
no_overlap (e ∷ es) range h =
    ((λ m. ground (arith, (overlap_pos_iff e.range range).1 m)), no_overlap es range (ground arith))

-- A range that is found not reclaimed shows no reclaim, and no candidate touched an address of it.
pub not_reclaimed_untouched :
    (before after : RangeResidencySnapshot) (candidates : List DamosBeforeApplyEvent)
    (range : AddressRange)
    → range_not_reclaimed before after candidates range ≡ true
    → (range_reclaim_observed before after ≡ false) × All (λ e. ¬ Meet e.range range) candidates
unfolding range_not_reclaimed range_reclaim_observed
not_reclaimed_untouched before after candidates range h =
    (ground arith, no_overlap candidates range (ground arith))
