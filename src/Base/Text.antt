-- ===== src/Base/Text.antt =====
-- Text: comparison, emptiness, and the decimal print that `format!` makes of an integer.
use Prim.Native.Nat.{ℕ, zero, suc, ◌/◌, ◌%◌}
use Prim.Native.String.{String, ◌++◌}
use mathlib.Core.Path.{◌≡◌, refl}
use mathlib.Core.Logic.{◌↔◌}
use mathlib.Core.Bool.{Bool, true, false, ◌||◌, ◌&&◌}
use mathlib.Core.Option.{Option, none, some}
use mathlib.Core.List.{List, [], ◌∷◌}
use text.Mathlib.Text.{◌==◌ as text_eq}
use text.Mathlib.TextEquality.{eq_iff}
use nemor.Base.Tests.{ltb, if◌then◌else◌}

abbrev pub str_eq : String → String → Bool
str_eq = text_eq

pub str_eq_iff : (s t : String) → (str_eq s t ≡ true) ↔ (s ≡ t)
str_eq_iff = eq_iff

abbrev pub is_blank : String → Bool
is_blank String.[] = true
is_blank (String.◌∷◌ c s) = false

-- `values.contains(&name)`.
abbrev pub contains_str : List String → String → Bool
contains_str [] s = false
contains_str (x ∷ xs) s = str_eq x s || contains_str xs s

-- Equality of lists of texts, of optional texts, and of maps from texts to texts in key order.
abbrev pub strs_eq : List String → List String → Bool
strs_eq [] [] = true
strs_eq [] (t ∷ ts) = false
strs_eq (s ∷ ss) [] = false
strs_eq (s ∷ ss) (t ∷ ts) = str_eq s t && strs_eq ss ts

abbrev pub opt_str_eq : Option String → Option String → Bool
opt_str_eq none none = true
opt_str_eq (some s) (some t) = str_eq s t
opt_str_eq _ _ = false

abbrev pub pairs_eq : List (String × String) → List (String × String) → Bool
pairs_eq [] [] = true
pairs_eq [] (b ∷ bs) = false
pairs_eq (a ∷ rest) [] = false
pairs_eq ((k, v) ∷ rest) ((j, w) ∷ bs) = (str_eq k j && str_eq v w) && pairs_eq rest bs

infixr 65 ◌+++◌
abbrev pub ◌+++◌ : String → String → String
a +++ b = a ++ b

-- `values.join(separator)`.
pub join : String → List String → String
join sep [] = ""
join sep (x ∷ []) = x
join sep (x ∷ (y ∷ ys)) = x +++ (sep +++ join sep (y ∷ ys))

digit : ℕ → String
digit zero = "0"
digit (suc zero) = "1"
digit (suc (suc zero)) = "2"
digit (suc (suc (suc zero))) = "3"
digit (suc (suc (suc (suc zero)))) = "4"
digit (suc (suc (suc (suc (suc zero))))) = "5"
digit (suc (suc (suc (suc (suc (suc zero)))))) = "6"
digit (suc (suc (suc (suc (suc (suc (suc zero))))))) = "7"
digit (suc (suc (suc (suc (suc (suc (suc (suc zero)))))))) = "8"
digit (suc (suc (suc (suc (suc (suc (suc (suc (suc n))))))))) = "9"

-- The digits of a 64-bit integer, at most 20 of them.
decimal_from : ℕ → ℕ → String → String
unfolding digit
decimal_from zero n out = out
decimal_from (suc k) n out =
    let rest = decimal_from k (n / 10) (digit (n % 10) +++ out) in
    if ltb n 10 then digit n +++ out else rest

unfoldable pub decimal : ℕ → String
unfolding decimal_from
decimal n = decimal_from 20 n ""

decimal_example : decimal 1205 ≡ "1205"
unfolding decimal
decimal_example = refl
