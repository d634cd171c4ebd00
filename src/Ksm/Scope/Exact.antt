-- ===== src/Ksm/Scope/Exact.antt =====
-- What an exact mergeable scope, and an exact unmergeable scope say of the address ranges
-- (crates/ksm/src/lib.rs).
use nemor.Base.{
  ℕ, ◌≤◌, ◌<◌, ◌+◌, ◌^◌, ◌≡◌, ◌↔◌, refl, true, not, inl, inr, List, [], ◌∷◌, arith, Any,
  if◌then◌else◌,
}
use nemor.Base.Chars.{Chars}
use nemor.Ksm.Smaps.{AddressRange, SmapsArea, parse_smaps_areas}
use nemor.Ksm.Scope.{exact_scope, unexpected_sum, unexpected_bytes, verify_exact_mergeable_scope}
use nemor.Ksm.Scope.Coverage.{Holds, fully_covered_with-Holds}

-- The sum without the wrap of 64 bits.
abbrev pub exact_sum : AddressRange → List SmapsArea → ℕ
exact_sum duplicate [] = 0
exact_sum duplicate (area ∷ areas) =
    (if area.mergeable then unexpected_bytes duplicate area else 0) + exact_sum duplicate areas

unexpected_sum-eq :
    (duplicate : AddressRange) (areas : List SmapsArea)
    → exact_sum duplicate areas < 2 ^ 64
    → unexpected_sum duplicate areas ≡ exact_sum duplicate areas
unfolding unexpected_sum
unexpected_sum-eq duplicate [] h = refl
unexpected_sum-eq duplicate (area ∷ areas) h =
    let rest = unexpected_sum-eq duplicate areas (omega arith) in omega arith

-- With no unexpected byte, a mergeable area lies inside the duplicate range.
inside :
    (duplicate : AddressRange) (areas : List SmapsArea) (x : ℕ)
    → exact_sum duplicate areas ≡ 0
    → Any (Holds (λ area. area.mergeable) x) areas
    → (duplicate.start ≤ x) × (x < duplicate.end)
inside duplicate [] x h a = absurd a
inside duplicate (area ∷ areas) x h (inl here) = ground arith
inside duplicate (area ∷ areas) x h (inr there) = inside duplicate areas x (omega arith) there

-- Where the mergeable scope is exact and the sum of the unexpected bytes fits 64 bits, the mergeable
-- addresses are those of the duplicate range and no others.
pub exact_scope-mergeable_iff :
    (smaps : Chars) (duplicate control : AddressRange) (x : ℕ)
    → (verify_exact_mergeable_scope smaps duplicate control).passed ≡ true
    → exact_sum duplicate (parse_smaps_areas smaps) < 2 ^ 64
    → Any (Holds (λ area. area.mergeable) x) (parse_smaps_areas smaps)
      ↔ (duplicate.start ≤ x) × (x < duplicate.end)
unfolding verify_exact_mergeable_scope exact_scope
exact_scope-mergeable_iff smaps duplicate control x passed fits =
    let areas = parse_smaps_areas smaps in
    let none_unexpected : exact_sum duplicate areas ≡ 0 =
      ground (arith, unexpected_sum-eq duplicate areas) in
    (
      inside duplicate areas x none_unexpected,
      λ h.
          fully_covered_with-Holds duplicate areas (λ area. area.mergeable) x (ground arith) h.0
            h.1,
    )

-- An area at the address that is not mergeable, and one that has no huge pages.
abbrev pub IsPlainAt : ℕ → List SmapsArea → Type 0
IsPlainAt x areas =
    Any (Holds (λ area. not area.mergeable) x) areas
    × Any (Holds (λ area. area.no_hugepage) x) areas

-- Where the mergeable scope is exact, each address of the control range lies in an area that is not
-- mergeable, and in one without huge pages.
pub exact_scope-control :
    (smaps : Chars) (duplicate control : AddressRange) (x : ℕ)
    → (verify_exact_mergeable_scope smaps duplicate control).passed ≡ true
    → control.start ≤ x
    → x < control.end
    → IsPlainAt x (parse_smaps_areas smaps)
unfolding verify_exact_mergeable_scope exact_scope
exact_scope-control smaps duplicate control x passed le lt =
    let areas = parse_smaps_areas smaps in
    (
      fully_covered_with-Holds control areas (λ area. not area.mergeable) x (ground arith) le lt,
      fully_covered_with-Holds control areas (λ area. area.no_hugepage) x (ground arith) le lt,
    )
