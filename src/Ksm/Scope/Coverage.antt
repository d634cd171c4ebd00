-- ===== src/Ksm/Scope/Coverage.antt =====
-- A range that the check calls fully covered is covered (crates/ksm/src/lib.rs).
use nemor.Base.{
  ℕ, ◌≤◌, ◌<◌, ◌≡◌, true, inl, inr, List, [], ◌∷◌, arith, max, min, ltb, Bool, Bool-cases, Any,
  filter, sort_by, Any-sort_by,
}
use nemor.Ksm.Smaps.{AddressRange, SmapsArea}
use nemor.Ksm.Scope.{cover_loop, is_relevant, start_of, fully_covered_with}

-- The area holds the address and meets the predicate.
abbrev pub Holds : (SmapsArea → Bool) → ℕ → SmapsArea → Type 0
Holds predicate x area = (area.range.start ≤ x) × (x < area.range.end) × (predicate area ≡ true)

cover_loop-Holds :
    (predicate : SmapsArea → Bool) (end cursor : ℕ) (areas : List SmapsArea) (x : ℕ)
    → cover_loop predicate end cursor areas ≡ true
    → cursor ≤ x
    → x < end
    → Any (Holds predicate x) areas
unfolding cover_loop
cover_loop-Holds predicate end cursor [] x h le lt = ground arith
cover_loop-Holds predicate end cursor (area ∷ areas) x h le lt =
    elim (Bool-cases (ltb x (max cursor (min area.range.end end)))) [
      | inl here ↦ inl (ground arith, ground arith, ground arith)
      | inr later ↦ inr (
          cover_loop-Holds predicate end (max cursor (min area.range.end end)) areas x
            (ground arith) (ground arith) lt)
    ]

pub Any-filter :
    (P : SmapsArea → Type 0) (p : SmapsArea → Bool) (xs : List SmapsArea)
    → Any P (filter p xs)
    → Any P xs
Any-filter P p [] h = h
Any-filter P p (x ∷ xs) h = elim (Bool-cases (p x)) [
  | inl keep ↦ elim (rw keep at h) [ inl a ↦ inl a | inr b ↦ inr (Any-filter P p xs b) ]
  | inr drop ↦ inr (Any-filter P p xs (rw drop at h))
]

-- Every address of a fully covered range lies in an area that meets the predicate.
pub fully_covered_with-Holds :
    (requested : AddressRange) (areas : List SmapsArea) (predicate : SmapsArea → Bool) (x : ℕ)
    → fully_covered_with requested areas predicate ≡ true
    → requested.start ≤ x
    → x < requested.end
    → Any (Holds predicate x) areas
unfolding fully_covered_with
fully_covered_with-Holds requested areas predicate x h le lt =
    Any-filter (Holds predicate x) (is_relevant requested) areas (
      Any-sort_by (Holds predicate x) start_of (filter (is_relevant requested) areas) (
        cover_loop-Holds predicate requested.end requested.start
          (sort_by start_of (filter (is_relevant requested) areas)) x (ground arith) le lt))
