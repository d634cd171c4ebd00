-- ===== src/Zram/Profile/Selection.antt =====
-- Which algorithm and which size a zram profile asks for (crates/zram/src/profile.rs).
use nemor.Base.{
  ◌≡◌, ◌⊎◌, inl, inr, refl, Bool, true, false, String, Option, none, some, List, [], ◌∷◌, All,
  filter, contains_str, arith, Bool-cases, if◌then◌else◌,
}
use nemor.Base.Float.{Float}
use nemor.Common.Config.{CompressionConfig}
use nemor.Zram.Types.{BenchmarkEvidence, ZramProfile, safe, gaming, capacity}
use nemor.Zram.Ranking.{
  is_greater, min_from, max_from, compare_cost, compare_gain, best_cost, best_gain,
}
use nemor.Zram.Profile.{
  ProfileContext, is_valid, gains, select_for, select_valid, select_algorithm, or_current,
}
use Prim.Native.Nat.{Ordering}

module _ {F : Type 0} (P : BenchmarkEvidence F → Type 0) where
  filter-All :
      (test : BenchmarkEvidence F → Bool) (xs : List (BenchmarkEvidence F))
      → All P xs
      → All P (filter test xs)
  filter-All test [] a = tt
  filter-All test (x ∷ xs) (a, rest) = elim (Bool-cases (test x)) [
    | inl p ↦ rw p (a, filter-All test xs rest)
    | inr p ↦ rw p (filter-All test xs rest)
  ]

  choose : (b : Bool) (x y : BenchmarkEvidence F) → P x → P y → P (if b then x else y)
  choose true x y p q = p
  choose false x y p q = q

  min_from-All :
      (cmp : BenchmarkEvidence F → BenchmarkEvidence F → Ordering) (x : BenchmarkEvidence F)
      (xs : List (BenchmarkEvidence F))
      → P x
      → All P xs
      → P (min_from cmp x xs)
  unfolding min_from
  min_from-All cmp x [] p a = p
  min_from-All cmp x (y ∷ ys) p (q, a) =
      min_from-All cmp (if is_greater (cmp x y) then y else x) ys (choose _ y x q p) a

  max_from-All :
      (cmp : BenchmarkEvidence F → BenchmarkEvidence F → Ordering) (x : BenchmarkEvidence F)
      (xs : List (BenchmarkEvidence F))
      → P x
      → All P xs
      → P (max_from cmp x xs)
  unfolding max_from
  max_from-All cmp x [] p a = p
  max_from-All cmp x (y ∷ ys) p (q, a) =
      max_from-All cmp (if is_greater (cmp x y) then x else y) ys (choose _ x y p q) a

module _ {F : Type 0} (fl : Float F) where
  abbrev Listed : ProfileContext F → BenchmarkEvidence F → Type 0
  Listed c item = contains_str c.device.available_algorithms item.algorithm ≡ true

  -- What an algorithm must be, to be selected: the current one, or one that the device has.
  abbrev pub Selectable : ProfileContext F → Option String → Type 0
  Selectable c none = Unit {0}
  Selectable c (some a) =
      (c.device.current_algorithm ≡ some a) ⊎ (contains_str c.device.available_algorithms a ≡ true)

  is_valid-Listed :
      (c : ProfileContext F) (config : CompressionConfig F) (x : BenchmarkEvidence F)
      → is_valid fl c config x ≡ true
      → Listed c x
  unfolding is_valid
  is_valid-Listed c config x p = ground (arith, p)

  valid-Listed :
      (c : ProfileContext F) (config : CompressionConfig F) (xs : List (BenchmarkEvidence F))
      → All (Listed c) (filter (is_valid fl c config) xs)
  valid-Listed c config [] = tt
  valid-Listed c config (x ∷ xs) = elim (Bool-cases (is_valid fl c config x)) [
    | inl p ↦ rw p (is_valid-Listed c config x p, valid-Listed c config xs)
    | inr p ↦ rw p (valid-Listed c config xs)
  ]

  same-Selectable :
      (c : ProfileContext F) (o : Option String) → c.device.current_algorithm ≡ o → Selectable c o
  same-Selectable c none e = tt
  same-Selectable c (some a) e = inl e

  best_cost-Selectable :
      (c : ProfileContext F) (xs : List (BenchmarkEvidence F))
      → All (Listed c) xs
      → Selectable c (best_cost xs)
  unfolding best_cost
  best_cost-Selectable c [] a = tt
  best_cost-Selectable c (x ∷ xs) (p, a) = inr (min_from-All (Listed c) compare_cost x xs p a)

  or_current-Selectable :
      (c : ProfileContext F) (xs : List (BenchmarkEvidence F))
      → All (Listed c) xs
      → Selectable c (or_current fl (best_gain fl xs) c.device.current_algorithm)
  unfolding best_gain
  or_current-Selectable c [] a = same-Selectable c c.device.current_algorithm refl
  or_current-Selectable c (x ∷ xs) (p, a) = inr (max_from-All (Listed c) (compare_gain fl) x xs p a)

  select_for-Selectable :
      (p : ZramProfile) (c : ProfileContext F) (config : CompressionConfig F)
      (xs : List (BenchmarkEvidence F))
      → All (Listed c) xs
      → Selectable c (select_for fl p c config xs)
  unfolding select_for
  select_for-Selectable safe c config xs a = same-Selectable c c.device.current_algorithm refl
  select_for-Selectable gaming c config xs a =
      best_cost-Selectable c _ (filter-All (Listed c) _ xs a)
  select_for-Selectable capacity c config xs a =
      or_current-Selectable c _ (filter-All (Listed c) (gains fl c config) xs a)

  select_valid-Selectable :
      (c : ProfileContext F) (config : CompressionConfig F) (xs : List (BenchmarkEvidence F))
      → All (Listed c) xs
      → Selectable c (select_valid fl c config xs)
  unfolding select_valid
  select_valid-Selectable c config [] a = same-Selectable c c.device.current_algorithm refl
  select_valid-Selectable c config (x ∷ xs) a =
      select_for-Selectable c.requested c config (x ∷ xs) a

  -- A profile selects the current algorithm, or one that the device has, or none.
  pub select_algorithm-Selectable :
      (c : ProfileContext F) (config : CompressionConfig F)
      → Selectable c (select_algorithm fl c config)
  unfolding select_algorithm
  select_algorithm-Selectable c config =
      select_valid-Selectable c config (filter (is_valid fl c config) c.benchmarks)
        (valid-Listed c config c.benchmarks)
