-- ===== src/Ksm/BasePages/Passed.antt =====
-- What a range that passes the base page check is (crates/ksm/src/lib.rs).
use nemor.Base.{
  ℕ, Bool, true, false, not, ◌&&◌, ◌≤◌, ◌<◌, ◌≡◌, inl, inr, refl, some, List, [], ◌∷◌, ◌-◌, min,
  max, ltb, arith, Any, Any-sort_by, all, is_empty, is_empty-push_if, sort_by, if◌then◌else◌,
  Bool-cases, opt_eq, opt_eq_iff, saturating_add,
}
use nemor.Base.Chars.{Chars}
use nemor.Ksm.Smaps.{AddressRange, SmapsArea, has_flag, parse_smaps_areas}
use nemor.Ksm.BasePages.{
  SmapsRangeOverlap, overlaps_of, cover, each, has_base_pages, failures, full_coverage,
  base_page_scope, verify_base_page_scope, overlap_with,
}

abbrev Reaches : ℕ → SmapsRangeOverlap → Type 0
Reaches x o = (o.overlap_start ≤ x) × (x < o.overlap_end)

cover-Reaches :
    (cursor bytes : ℕ) (os : List SmapsRangeOverlap) (x : ℕ)
    → cursor ≤ x
    → x < (cover cursor bytes os).0
    → Any (Reaches x) os
unfolding cover
cover-Reaches cursor bytes [] x le lt = absurd (omega arith)
cover-Reaches cursor bytes (o ∷ os) x le lt = elim (Bool-cases (ltb cursor o.overlap_start)) [
  | inl gap ↦ absurd (let h = rw gap at lt in omega arith)
  | inr joined ↦ elim (Bool-cases (ltb x o.overlap_end)) [
    | inl here ↦ inl (ground arith, ground arith)
    | inr later ↦
        let grows = ltb (max cursor o.overlap_start) o.overlap_end in
        inr (
          cover-Reaches (if grows then o.overlap_end else cursor)
            (if grows
              then saturating_add bytes (o.overlap_end - max cursor o.overlap_start)
              else bytes)
            os x (ground arith) (rw joined at lt))
  ]
]

no_failures :
    (aligned coverage sizes anon nohuge early : Bool)
    → is_empty (failures aligned coverage sizes anon nohuge early) ≡ (
        not early
        && (not (not nohuge)
            && (not (not anon)
                && (not (not sizes) && (not (not coverage) && (not (not aligned) && true))))))
unfolding failures
no_failures aligned coverage sizes anon nohuge early = simp is_empty-push_if

failures_none :
    (aligned coverage sizes anon nohuge early : Bool)
    → is_empty (failures aligned coverage sizes anon nohuge early) ≡ true
    → (coverage ≡ true) × (sizes ≡ true) × (anon ≡ true) × (nohuge ≡ true) × (early ≡ false)
failures_none aligned coverage sizes anon nohuge early h =
    ground (arith, no_failures aligned coverage sizes anon nohuge early)

covered-Reaches :
    (range : AddressRange) (os : List SmapsRangeOverlap) (x : ℕ)
    → full_coverage range (cover range.start 0 os) ≡ true
    → range.start ≤ x
    → x < range.end
    → Any (Reaches x) os
unfolding full_coverage
covered-Reaches range os x h le lt = cover-Reaches range.start 0 os x le (ground arith)

Any-all :
    (P : SmapsRangeOverlap → Type 0) (p : SmapsRangeOverlap → Bool) (os : List SmapsRangeOverlap)
    → all p os ≡ true
    → Any P os
    → Any (λ o. P o × (p o ≡ true)) os
Any-all P p [] h a = a
Any-all P p (o ∷ os) h (inl here) = inl (here, ground arith)
Any-all P p (o ∷ os) h (inr there) = inr (Any-all P p os (ground arith) there)

-- The flag for ranges that must not be mergeable yet.
abbrev not_early : Bool → SmapsRangeOverlap → Bool
not_early strict o = not (strict && has_flag "mg" o.vm_flags)

all-not_early :
    (strict : Bool) (os : List SmapsRangeOverlap)
    → (strict && not (each (λ o. not (has_flag "mg" o.vm_flags)) os)) ≡ false
    → all (not_early strict) os ≡ true
all-not_early true os h = ground arith
all-not_early false [] h = refl
all-not_early false (o ∷ os) h = all-not_early false os refl

-- An area of base pages at the address: page sizes, huge pages and flags.
pub record IsBaseArea (page : ℕ) (strict : Bool) (x : ℕ) (area : SmapsArea) : Type 0 where
  pub from : area.range.start ≤ x
  pub to : x < area.range.end
  pub kernel : area.kernel_page_size_bytes ≡ some page
  pub mmu : area.mmu_page_size_bytes ≡ some page
  pub no_huge : area.anon_huge_pages_bytes ≡ some 0
  pub flagged : has_flag "nh" area.vm_flags ≡ true
  pub not_merged : (strict && has_flag "mg" area.vm_flags) ≡ false

abbrev Tested : ℕ → Bool → ℕ → SmapsRangeOverlap → Type 0
Tested page strict x o =
    (((Reaches x o × (has_flag "nh" o.vm_flags ≡ true)) × (has_base_pages page o ≡ true))
      × (opt_eq o.anon_huge_pages_bytes (some 0) ≡ true))
    × (not_early strict o ≡ true)

Tested-IsBaseArea :
    (page : ℕ) (strict : Bool) (x : ℕ) (range : AddressRange) (area : SmapsArea)
    → Tested page strict x (overlap_with range area)
    → IsBaseArea page strict x area
Tested-IsBaseArea page strict x range area t = record {
  from = omega arith;
  to = omega arith;
  kernel = (opt_eq_iff area.kernel_page_size_bytes (some page)).0 (ground arith);
  mmu = (opt_eq_iff area.mmu_page_size_bytes (some page)).0 (ground arith);
  no_huge = (opt_eq_iff area.anon_huge_pages_bytes (some 0)).0 t.0.1;
  flagged = t.0.0.0.1;
  not_merged = ground arith;
}

overlaps_of-IsBaseArea :
    (page : ℕ) (strict : Bool) (x : ℕ) (range : AddressRange) (areas : List SmapsArea)
    → Any (Tested page strict x) (overlaps_of range areas)
    → Any (IsBaseArea page strict x) areas
unfolding overlaps_of
overlaps_of-IsBaseArea page strict x range [] h = h
overlaps_of-IsBaseArea page strict x range (area ∷ areas) h =
    elim (Bool-cases (ltb (max area.range.start range.start) (min area.range.end range.end))) [
      | inl meets ↦ elim (rw meets at h) [
        | inl here ↦ inl (Tested-IsBaseArea page strict x range area here)
        | inr there ↦ inr (overlaps_of-IsBaseArea page strict x range areas there)
      ]
      | inr apart ↦ inr (overlaps_of-IsBaseArea page strict x range areas (rw apart at h))
    ]

-- In a range that passes the check, each address lies in an area whose page sizes are those of the
-- host, that has no anonymous huge pages, that carries the flag against them and that is not
-- mergeable where that is asked for.
pub verify_base_page_scope-IsBaseArea :
    (smaps : Chars) (range : AddressRange) (page : ℕ) (strict : Bool) (x : ℕ)
    → (verify_base_page_scope smaps range page strict).passed ≡ true
    → range.start ≤ x
    → x < range.end
    → Any (IsBaseArea page strict x) (parse_smaps_areas smaps)
unfolding verify_base_page_scope base_page_scope full_coverage
verify_base_page_scope-IsBaseArea smaps range page strict x passed le lt =
    let areas = parse_smaps_areas smaps in
    let key : SmapsRangeOverlap → ℕ = λ o. o.overlap_start in
    let os = sort_by key (overlaps_of range areas) in
    let (coverage, sizes, anon, nohuge, early) = failures_none _ _ _ _ _ _ passed in
    let reached = covered-Reaches range os x coverage le lt in
    let flagged = Any-all _ (λ o. has_flag "nh" o.vm_flags) os (ground arith) reached in
    let sized = Any-all _ (has_base_pages page) os (ground arith) flagged in
    let flat = Any-all _ (λ o. opt_eq o.anon_huge_pages_bytes (some 0)) os (ground arith) sized in
    let tested = Any-all _ (not_early strict) os (all-not_early strict os early) flat in
    overlaps_of-IsBaseArea page strict x range areas
      (Any-sort_by _ key (overlaps_of range areas) tested)
