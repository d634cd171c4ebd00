-- ===== src/Base/Sort.antt =====
-- `any` as a predicate, and the stable sort of `sort_by_key`, which keeps the elements and orders them.
use Prim.Native.Nat.{ℕ, ◌≤◌}
use mathlib.Core.Logic.{◌⊎◌, inl, inr}
use mathlib.Core.List.{List, [], ◌∷◌}
use native.Mathlib.Omega.{arith}
use nemor.Base.Lists.{All}
use nemor.Base.Tests.{leb, if◌then◌else◌, Bool-cases}

module _ {ℓ} {A : Type ℓ} where
  -- A predicate of some element.
  abbrev pub Any : (A → Type 0) → List A → Type 0
  Any P [] = ⊥
  Any P (x ∷ xs) = P x ⊎ Any P xs

  -- `sort_by_key`: a stable sort by a number.
  abbrev pub insert_by : (A → ℕ) → A → List A → List A
  insert_by key x [] = x ∷ []
  insert_by key x (y ∷ ys) = if leb (key x) (key y) then x ∷ (y ∷ ys) else y ∷ insert_by key x ys

  unfoldable pub sort_by : (A → ℕ) → List A → List A
  sort_by key [] = []
  sort_by key (x ∷ xs) = insert_by key x (sort_by key xs)

  Any-insert_by :
      (P : A → Type 0) (key : A → ℕ) (x : A) (xs : List A)
      → Any P (insert_by key x xs)
      → P x ⊎ Any P xs
  Any-insert_by P key x [] h = h
  Any-insert_by P key x (y ∷ ys) h = elim (Bool-cases (leb (key x) (key y))) [
    | inl le ↦ rw le at h
    | inr gt ↦ elim (rw gt at h) [
      | inl p ↦ inr (inl p)
      | inr q ↦ elim (Any-insert_by P key x ys q) [ inl p ↦ inl p | inr r ↦ inr (inr r) ]
    ]
  ]

  insert_by-Any :
      (P : A → Type 0) (key : A → ℕ) (x : A) (xs : List A)
      → P x ⊎ Any P xs
      → Any P (insert_by key x xs)
  insert_by-Any P key x [] h = h
  insert_by-Any P key x (y ∷ ys) h = elim (Bool-cases (leb (key x) (key y))) [
    | inl le ↦ rw le h
    | inr gt ↦ rw gt (elim h [
      | inl p ↦ inr (insert_by-Any P key x ys (inl p))
      | inr r ↦ elim r [ inl p ↦ inl p | inr q ↦ inr (insert_by-Any P key x ys (inr q)) ]
    ])
  ]

  -- Sorting keeps the elements.
  pub Any-sort_by : (P : A → Type 0) (key : A → ℕ) (xs : List A) → Any P (sort_by key xs) → Any P xs
  unfolding sort_by
  Any-sort_by P key [] h = h
  Any-sort_by P key (x ∷ xs) h = elim (Any-insert_by P key x (sort_by key xs) h) [
    | inl p ↦ inl p
    | inr r ↦ inr (Any-sort_by P key xs r)
  ]

  pub sort_by-Any : (P : A → Type 0) (key : A → ℕ) (xs : List A) → Any P xs → Any P (sort_by key xs)
  unfolding sort_by
  sort_by-Any P key [] h = h
  sort_by-Any P key (x ∷ xs) h =
      insert_by-Any P key x (sort_by key xs)
        (elim h [ inl p ↦ inl p | inr r ↦ inr (sort_by-Any P key xs r) ])

  All-insert_by :
      (P : A → Type 0) (key : A → ℕ) (x : A) (xs : List A)
      → P x
      → All P xs
      → All P (insert_by key x xs)
  All-insert_by P key x [] p h = (p, tt)
  All-insert_by P key x (y ∷ ys) p h = elim (Bool-cases (leb (key x) (key y))) [
    | inl le ↦ rw le (p, h)
    | inr gt ↦ rw gt (h.0, All-insert_by P key x ys p h.1)
  ]

  pub All-sort_by : (P : A → Type 0) (key : A → ℕ) (xs : List A) → All P xs → All P (sort_by key xs)
  unfolding sort_by
  All-sort_by P key [] h = tt
  All-sort_by P key (x ∷ xs) h =
      All-insert_by P key x (sort_by key xs) h.0 (All-sort_by P key xs h.1)

  -- Each key is at most those after it.
  abbrev pub IsSorted : (A → ℕ) → List A → Type 0
  IsSorted key [] = Unit
  IsSorted key (x ∷ xs) = All (λ y. key x ≤ key y) xs × IsSorted key xs

  All-le :
      (key : A → ℕ) (x y : A) (xs : List A)
      → key x ≤ key y
      → All (λ z. key y ≤ key z) xs
      → All (λ z. key x ≤ key z) xs
  All-le key x y [] h a = tt
  All-le key x y (z ∷ zs) h a = (omega arith, All-le key x y zs h a.1)

  insert_by-IsSorted :
      (key : A → ℕ) (x : A) (xs : List A) → IsSorted key xs → IsSorted key (insert_by key x xs)
  insert_by-IsSorted key x [] s = (tt, tt)
  insert_by-IsSorted key x (y ∷ ys) s = elim (Bool-cases (leb (key x) (key y))) [
    | inl le ↦ rw le ((ground arith, All-le key x y ys (ground arith) s.0), s)
    | inr gt ↦ rw gt (
      All-insert_by (λ z. key y ≤ key z) key x ys (ground arith) s.0,
      insert_by-IsSorted key x ys s.1,
    )
  ]

  pub sort_by-IsSorted : (key : A → ℕ) (xs : List A) → IsSorted key (sort_by key xs)
  unfolding sort_by
  sort_by-IsSorted key [] = tt
  sort_by-IsSorted key (x ∷ xs) =
      insert_by-IsSorted key x (sort_by key xs) (sort_by-IsSorted key xs)
