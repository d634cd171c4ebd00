-- ===== src/Base/Float.antt =====
-- `f64` as an interface. The language has no floats, so the type and the operations that the source
-- uses are an instance argument; the laws that a theorem rests on stand in `IsOrdered`.
use Prim.Native.Nat.{ℕ, ◌≤◌, ◌*◌, ◌+◌, ◌/◌}
use Prim.Native.String.{String}
use mathlib.Core.Path.{◌≡◌}
use mathlib.Core.Bool.{Bool, true}
use native.Mathlib.Omega.{arith}
use nemor.Base.Tests.{leb, ltb}

pub record Float (F : Type 0) : Type 0 where
  -- `a <= b` and `a < b`, false where an argument is not a number.
  pub le : F → F → Bool
  pub lt : F → F → Bool
  pub is_finite : F → Bool
  -- `n as f64`, of an integer of at most 64 bits.
  pub of_nat : ℕ → F
  -- The literal of value a / b.
  pub literal : ℕ → ℕ → F
  pub add : F → F → F
  pub mul : F → F → F
  pub div : F → F → F
  -- `f64::max` and `f64::min`.
  pub fmax : F → F → F
  pub fmin : F → F → F
  -- `format!("{x:.2}")`.
  pub show : F → String

-- What IEEE 754 promises of comparison, and of the conversion from integers, which rounds to nearest.
pub record IsOrdered {F : Type 0} (f : Float F) : Type 0 where
  pub le_trans : (a b c : F) → f.le a b ≡ true → f.le b c ≡ true → f.le a c ≡ true
  pub of_nat_mono : (m n : ℕ) → m ≤ n → f.le (f.of_nat m) (f.of_nat n) ≡ true

-- Natural numbers with rounding down, an instance on which the definitions run.
abbrev pub whole : Float ℕ
whole = record {
  le = leb;
  lt = ltb;
  is_finite = λ _. true;
  of_nat = λ n. n;
  literal = λ a b. a / b;
  add = λ a b. a + b;
  mul = λ a b. a * b;
  div = λ a b. a / b;
  fmax = Prim.Native.Nat.max;
  fmin = Prim.Native.Nat.min;
  show = λ _. "";
}

pub whole-IsOrdered : IsOrdered whole
whole-IsOrdered = record {
  le_trans = λ a b c h k. ground arith;
  of_nat_mono = λ m n h. ground arith;
}
