-- ===== src/Zram/Ranking.antt =====
-- Orders on benchmark evidence and on texts (crates/zram/src/profile.rs).
use Prim.Native.String.{compare}
use Prim.Native.Nat.{Ordering}
use text.Mathlib.Text.{is_lt}
use nemor.Base.{
  ℕ, Bool, true, false, String, Option, none, some, List, [], ◌∷◌, str_eq, if◌then◌else◌,
}
use nemor.Base.Float.{Float}
use nemor.Zram.Types.{BenchmarkEvidence}

-- `sort` and `dedup`: a text goes before the first that is not below it, unless it is that one.
unfoldable pub insert_sorted : String → List String → List String
insert_sorted s [] = s ∷ []
insert_sorted s (t ∷ ts) =
    let rest = insert_sorted s ts in
    if is_lt (compare t s) then t ∷ rest else if str_eq t s then t ∷ ts else s ∷ t ∷ ts

unfoldable pub sort_dedup : List String → List String
sort_dedup [] = []
sort_dedup (s ∷ ss) = insert_sorted s (sort_dedup ss)

abbrev pub is_greater : Ordering → Bool
is_greater Ordering.gt = true
is_greater _ = false

-- `a.then_with(|| b)`.
abbrev pub then_with : Ordering → Ordering → Ordering
then_with Ordering.eq o = o
then_with Ordering.lt o = Ordering.lt
then_with Ordering.gt o = Ordering.gt

-- `cmp` on `Option<u64>`: a missing value is the least.
abbrev pub compare_time : Option ℕ → Option ℕ → Ordering
compare_time none none = Ordering.eq
compare_time none (some b) = Ordering.lt
compare_time (some a) none = Ordering.gt
compare_time (some a) (some b) = Prim.Native.Nat.compare a b

module _ {F : Type 0} where
  -- `Iterator::min_by`, which keeps the first of equals, and `max_by`, which keeps the last.
  unfoldable pub min_from :
      (BenchmarkEvidence F → BenchmarkEvidence F → Ordering)
      → BenchmarkEvidence F
      → List (BenchmarkEvidence F)
      → BenchmarkEvidence F
  min_from cmp best [] = best
  min_from cmp best (x ∷ xs) = min_from cmp (if is_greater (cmp best x) then x else best) xs

  unfoldable pub max_from :
      (BenchmarkEvidence F → BenchmarkEvidence F → Ordering)
      → BenchmarkEvidence F
      → List (BenchmarkEvidence F)
      → BenchmarkEvidence F
  max_from cmp best [] = best
  max_from cmp best (x ∷ xs) = max_from cmp (if is_greater (cmp best x) then best else x) xs

  unfoldable pub compare_cost : BenchmarkEvidence F → BenchmarkEvidence F → Ordering
  compare_cost a b =
      then_with (compare_time a.median_cpu_time_ns b.median_cpu_time_ns)
        (compare a.algorithm b.algorithm)

  -- The name of the best entry, if there is one.
  unfoldable pub best_cost : List (BenchmarkEvidence F) → Option String
  best_cost [] = none
  best_cost (x ∷ xs) = some (min_from compare_cost x xs).algorithm

module _ {F : Type 0} (fl : Float F) where
  -- `partial_cmp` on `Option<f64>`, where values that do not compare are taken as equal.
  abbrev pub compare_ratio : Option F → Option F → Ordering
  compare_ratio none none = Ordering.eq
  compare_ratio none (some b) = Ordering.lt
  compare_ratio (some a) none = Ordering.gt
  compare_ratio (some a) (some b) =
      if fl.lt a b then Ordering.lt else if fl.lt b a then Ordering.gt else Ordering.eq

  unfoldable pub compare_gain : BenchmarkEvidence F → BenchmarkEvidence F → Ordering
  compare_gain a b =
      then_with (compare_ratio a.median_effective_ratio b.median_effective_ratio)
        (compare b.algorithm a.algorithm)

  unfoldable pub best_gain : List (BenchmarkEvidence F) → Option String
  best_gain [] = none
  best_gain (x ∷ xs) = some (max_from compare_gain x xs).algorithm
