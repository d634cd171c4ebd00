-- ===== src/Damon/Ranges.antt =====
-- `AddressRange` and the overlap of two ranges (crates/damon/src/lib.rs).
use nemor.Base.{ℕ, ◌-◌, ◌≤◌, ◌<◌, ◌≡◌, ◌↔◌, ◌&&◌, Bool, true, min, max, arith, ◌==◌}

pub record AddressRange : Type 0 where
  pub start : ℕ
  pub end : ℕ

-- The derived `==`.
unfoldable pub range_eq : AddressRange → AddressRange → Bool
range_eq a b = (a.start == b.start) && (a.end == b.end)

unfoldable pub overlap : AddressRange → AddressRange → ℕ
overlap a b = min a.end b.end - max a.start b.start

-- An address lies in the half-open range.
abbrev pub Within : ℕ → AddressRange → Type 0
Within address r = (r.start ≤ address) × (address < r.end)

-- Some address lies in both ranges.
abbrev pub Meet : AddressRange → AddressRange → Type 0
Meet a b = (address : ℕ) × Within address a × Within address b

pub range_eq_iff : (a b : AddressRange) → (range_eq a b ≡ true) ↔ (a ≡ b)
unfolding range_eq
range_eq_iff a b = ground arith

-- The overlap is positive exactly if some address lies in both ranges; the first such address is
-- the later of the two starts.
pub overlap_pos_iff : (a b : AddressRange) → (0 < overlap a b) ↔ Meet a b
unfolding overlap
overlap_pos_iff a b = (
  (λ h. (max a.start b.start, (omega arith, omega arith), (omega arith, omega arith))),
  (λ (address, h, k). omega arith),
)
