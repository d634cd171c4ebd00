-- ===== src/Ksm/Scope/Completeness.antt =====
-- The coverage check agrees with a search address by address (crates/ksm/src/lib.rs).
use nemor.Base.{
  ℕ, zero, suc, ◌≤◌, ◌<◌, ◌+◌, ◌≡◌, refl, Bool, true, ◌&&◌, ◌||◌, not, inl, inr, List, [], ◌∷◌,
  arith, max, min, ltb, leb, ◌==◌, Bool-cases, All, Any, all, any, filter, sort_by, sort_by-Any,
  All-sort_by, IsSorted, sort_by-IsSorted,
}
use nemor.Ksm.Smaps.{AddressRange, SmapsArea, is_valid, len}
use nemor.Ksm.Scope.{cover_loop, is_relevant, start_of, fully_covered_with}
use nemor.Ksm.Scope.Coverage.{Holds, fully_covered_with-Holds}

abbrev pub contains : ℕ → SmapsArea → Bool
contains x area = leb area.range.start x && ltb x area.range.end

-- The reference: `n` addresses from `x` on are looked up one by one.
pub covers : ℕ → ℕ → List SmapsArea → Bool
covers zero x areas = true
covers (suc n) x areas = any (contains x) areas && covers n (x + 1) areas

abbrev Contains : ℕ → SmapsArea → Type 0
Contains x area = (area.range.start ≤ x) × (x < area.range.end)

Contains-any :
    (x : ℕ) (areas : List SmapsArea) → any (contains x) areas ≡ true → Any (Contains x) areas
Contains-any x [] h = absurd (ground arith)
Contains-any x (a ∷ rest) h = elim (Bool-cases (contains x a)) [
  | inl here ↦ inl (ground arith, ground arith)
  | inr there ↦ inr (Contains-any x rest (rw there at h))
]

any-Contains :
    (x : ℕ) (areas : List SmapsArea) → Any (Contains x) areas → any (contains x) areas ≡ true
any-Contains x [] h = absurd h
any-Contains x (a ∷ rest) (inl here) = ground arith
any-Contains x (a ∷ rest) (inr there) = ground (arith, any-Contains x rest there)

Holds-Contains :
    (p : SmapsArea → Bool) (x : ℕ) (areas : List SmapsArea)
    → Any (Holds p x) areas
    → Any (Contains x) areas
Holds-Contains p x [] h = h
Holds-Contains p x (a ∷ rest) (inl here) = inl (here.0, here.1)
Holds-Contains p x (a ∷ rest) (inr there) = inr (Holds-Contains p x rest there)

covers-Contains :
    (n x y : ℕ) (areas : List SmapsArea)
    → covers n x areas ≡ true
    → x ≤ y
    → y < x + n
    → Any (Contains y) areas
unfolding covers
covers-Contains zero x y areas h le lt = absurd (omega arith)
covers-Contains (suc n) x y areas h le lt = elim (Bool-cases (y == x)) [
  | inl same ↦ let e : y ≡ x = ground arith in Contains-any y areas (rw e (ground arith))
  | inr later ↦ covers-Contains n (x + 1) y areas (ground arith) (ground arith) (omega arith)
]

Contains-covers :
    (n x : ℕ) (areas : List SmapsArea)
    → ((y : ℕ) → x ≤ y → y < x + n → Any (Contains y) areas)
    → covers n x areas ≡ true
unfolding covers
Contains-covers zero x areas h = refl
Contains-covers (suc n) x areas h =
    rw (any-Contains x areas (h x (omega arith) (omega arith)))
      (Contains-covers n (x + 1) areas (λ y le lt. h y (omega arith) (omega arith)))

head-le :
    (x : ℕ) (a : SmapsArea) (rest : List SmapsArea)
    → All (λ b. a.range.start ≤ b.range.start) rest
    → Any (Contains x) (a ∷ rest)
    → a.range.start ≤ x
head-le x a rest s (inl here) = here.0
head-le x a [] s (inr there) = absurd there
head-le x a (b ∷ bs) s (inr (inl here)) = omega arith
head-le x a (b ∷ bs) s (inr (inr there)) = head-le x a bs s.1 (inr there)

past :
    (x : ℕ) (a : SmapsArea) (rest : List SmapsArea)
    → Any (Contains x) (a ∷ rest)
    → a.range.end ≤ x
    → Any (Contains x) rest
past x a rest (inl here) h = absurd (omega arith)
past x a rest (inr there) h = there

cover_loop-true :
    (p : SmapsArea → Bool) (end cursor : ℕ) (areas : List SmapsArea)
    → All (λ a. p a ≡ true) areas
    → IsSorted start_of areas
    → cursor < end
    → ((x : ℕ) → cursor ≤ x → x < end → Any (Contains x) areas)
    → cover_loop p end cursor areas ≡ true
unfolding cover_loop
cover_loop-true p end cursor [] meets s lt h = absurd (h cursor (omega arith) lt)
cover_loop-true p end cursor (a ∷ rest) meets s lt h =
    let cursor' : ℕ = max cursor (min a.range.end end) in
    let first : a.range.start ≤ cursor = head-le cursor a rest s.0 (h cursor (omega arith) lt) in
    elim (Bool-cases (cursor' == end)) [
      | inl done ↦ ground arith
      | inr more ↦
          let later : cover_loop p end cursor' rest ≡ true =
            cover_loop-true p end cursor' rest meets.1 s.1 (ground arith)
              (λ x le less. past x a rest (h x (ground arith) less) (ground arith)) in
          ground arith
    ]

filter-Contains :
    (requested : AddressRange) (x : ℕ) (areas : List SmapsArea)
    → requested.start ≤ x
    → x < requested.end
    → Any (Contains x) areas
    → Any (Contains x) (filter (is_relevant requested) areas)
filter-Contains requested x [] le lt h = h
filter-Contains requested x (a ∷ rest) le lt (inl here) =
    let e : is_relevant requested a ≡ true = ground arith in rw e (inl here)
filter-Contains requested x (a ∷ rest) le lt (inr there) =
    elim (Bool-cases (is_relevant requested a)) [
      | inl keep ↦ rw keep (inr (filter-Contains requested x rest le lt there))
      | inr drop ↦ rw drop (filter-Contains requested x rest le lt there)
    ]

-- Every area that meets the range meets the predicate.
abbrev pub all_relevant : AddressRange → (SmapsArea → Bool) → List SmapsArea → Bool
all_relevant requested p = all (λ a. not (is_relevant requested a) || p a)

filter-All :
    (requested : AddressRange) (p : SmapsArea → Bool) (areas : List SmapsArea)
    → all_relevant requested p areas ≡ true
    → All (λ a. p a ≡ true) (filter (is_relevant requested) areas)
filter-All requested p [] h = tt
filter-All requested p (a ∷ rest) h = elim (Bool-cases (is_relevant requested a)) [
  | inl keep ↦ rw keep (ground arith, filter-All requested p rest (ground arith))
  | inr drop ↦ rw drop (filter-All requested p rest (ground arith))
]

covered-true :
    (requested : AddressRange) (areas : List SmapsArea) (p : SmapsArea → Bool)
    → all_relevant requested p areas ≡ true
    → is_valid requested ≡ true
    → covers (len requested) requested.start areas ≡ true
    → fully_covered_with requested areas p ≡ true
unfolding fully_covered_with
covered-true requested areas p meets valid h = rw valid (
    cover_loop-true p requested.end requested.start
      (sort_by start_of (filter (is_relevant requested) areas))
      (All-sort_by (λ a. p a ≡ true) start_of (filter (is_relevant requested) areas)
        (filter-All requested p areas meets))
      (sort_by-IsSorted start_of (filter (is_relevant requested) areas)) (ground arith)
      (λ x le lt. sort_by-Any (Contains x) start_of (filter (is_relevant requested) areas) (
        filter-Contains requested x areas le lt
          (covers-Contains (len requested) requested.start x areas h le (omega arith)))))

true-covered :
    (requested : AddressRange) (areas : List SmapsArea) (p : SmapsArea → Bool)
    → fully_covered_with requested areas p ≡ true
    → covers (len requested) requested.start areas ≡ true
true-covered requested areas p h = Contains-covers (len requested) requested.start areas (λ y le lt.
    Holds-Contains p y areas (fully_covered_with-Holds requested areas p y h le (omega arith)))

fully_covered_with-valid :
    (requested : AddressRange) (areas : List SmapsArea) (p : SmapsArea → Bool)
    → fully_covered_with requested areas p ≡ true
    → is_valid requested ≡ true
unfolding fully_covered_with
fully_covered_with-valid requested areas p h = ground arith

-- Where every area that meets the range meets the predicate, the loop over the sorted areas answers
-- as a search address by address does: the range is not empty, and each of its addresses lies in
-- an area.
pub fully_covered_with-eq-covers :
    (requested : AddressRange) (areas : List SmapsArea) (p : SmapsArea → Bool)
    → all_relevant requested p areas ≡ true
    → fully_covered_with requested areas p
      ≡ (is_valid requested && covers (len requested) requested.start areas)
fully_covered_with-eq-covers requested areas p meets = ground (
  arith,
  covered-true requested areas p meets,
  true-covered requested areas p,
  fully_covered_with-valid requested areas p,
)
