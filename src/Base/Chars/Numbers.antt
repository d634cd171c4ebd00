-- ===== src/Base/Chars/Numbers.antt =====
-- `str::parse` and `from_str_radix` for integers: an optional sign, at least one digit, and an error
-- where the value does not fit. Printing an integer in decimal and parsing it gives it back.
use Prim.Native.Nat.{ℕ, zero, suc, ◌+◌, ◌-◌, ◌*◌, ◌/◌, ◌%◌, ◌<◌, ◌≤◌}
use mathlib.Core.Path.{◌≡◌, refl}
use mathlib.Core.Logic.{◌≢◌, inl, inr}
use mathlib.Core.Bool.{◌&&◌}
use mathlib.Core.List.{[], ◌∷◌, ◌++◌}
use mathlib.Core.Option.{Option, none, some}
use native.Mathlib.Omega.{arith}
use nemor.Base.Tests.{ltb, leb, ◌==◌, if◌then◌else◌, Bool-cases}
use nemor.Base.Lists.{All, All-append}
use nemor.Base.Words.{u64_max, u32_max}
use nemor.Base.Chars.{Chars}
use nemor.Base.Integer.{ℤ, pos, negsuc, i64_max}

-- `char::to_digit`.
unfoldable pub digit_value : ℕ → ℕ → Option ℕ
digit_value radix c =
    let value =
      if leb 48 c && leb c 57
      then c - 48
      else if leb 97 c && leb c 122
      then c - 87
      else if leb 65 c && leb c 90
      then c - 55
      else 99 in
    if ltb value radix then some value else none

unfoldable pub grow : ℕ → ℕ → ℕ → Option ℕ → Option ℕ
grow max radix value none = none
grow max radix value (some d) =
    let next = value * radix + d in if leb next max then some next else none

unfoldable pub push_digit : ℕ → ℕ → Option ℕ → ℕ → Option ℕ
unfolding digit_value grow
push_digit max radix none c = none
push_digit max radix (some value) c = grow max radix value (digit_value radix c)

unfoldable pub read_digits : ℕ → ℕ → Option ℕ → Chars → Option ℕ
unfolding push_digit
read_digits max radix value [] = value
read_digits max radix value (c ∷ cs) = read_digits max radix (push_digit max radix value c) cs

unfoldable pub some_digits : ℕ → ℕ → Chars → Option ℕ
unfolding read_digits
some_digits max radix [] = none
some_digits max radix (c ∷ cs) = read_digits max radix (some 0) (c ∷ cs)

unfoldable pub parse_radix : ℕ → ℕ → Chars → Option ℕ
unfolding some_digits
parse_radix max radix [] = none
parse_radix max radix (c ∷ cs) =
    if c == b'+' then some_digits max radix cs else some_digits max radix (c ∷ cs)

abbrev pub parse_u64 : Chars → Option ℕ
parse_u64 = parse_radix u64_max 10

abbrev pub parse_u32 : Chars → Option ℕ
parse_u32 = parse_radix u32_max 10

abbrev pub parse_u8 : Chars → Option ℕ
parse_u8 = parse_radix 255 10

unfoldable pub negated : Option ℕ → Option ℤ
negated none = none
negated (some zero) = some (pos 0)
negated (some (suc n)) = some (negsuc n)

unfoldable pub positive : Option ℕ → Option ℤ
positive none = none
positive (some n) = some (pos n)

unfoldable pub parse_i64 : Chars → Option ℤ
unfolding some_digits parse_radix negated positive
parse_i64 [] = none
parse_i64 (c ∷ cs) =
    if c == b'-'
    then negated (some_digits (i64_max + 1) 10 cs)
    else positive (parse_radix i64_max 10 (c ∷ cs))

-- The decimal digits of a number below `fuel`.
unfoldable pub digits_from : ℕ → ℕ → Chars
digits_from zero n = []
digits_from (suc fuel) n =
    let rest = digits_from fuel (n / 10) ++ ((48 + n % 10) ∷ []) in
    if ltb n 10 then (48 + n) ∷ [] else rest

unfoldable pub digits : ℕ → Chars
unfolding digits_from
digits n = digits_from (suc n) n

read_digits-append :
    (max radix : ℕ) (v : Option ℕ) (xs ys : Chars)
    → read_digits max radix v (xs ++ ys) ≡ read_digits max radix (read_digits max radix v xs) ys
unfolding read_digits
read_digits-append max radix v [] ys = refl
read_digits-append max radix v (x ∷ xs) ys =
    read_digits-append max radix (push_digit max radix v x) xs ys

digit_value-digit : (d : ℕ) → d < 10 → digit_value 10 (48 + d) ≡ some d
unfolding digit_value
digit_value-digit d h = ground arith

read_digits_last :
    (max v d n : ℕ)
    → d < 10
    → v * 10 + d ≡ n
    → n ≤ max
    → read_digits max 10 (some v) ((48 + d) ∷ []) ≡ some n
unfolding read_digits push_digit grow
read_digits_last max v d n h e k = ground (arith, digit_value-digit d)

read_digits-digits :
    (max fuel n : ℕ)
    → n < fuel
    → n ≤ max
    → read_digits max 10 (some 0) (digits_from fuel n) ≡ some n
unfolding digits_from
read_digits-digits max zero n h k = elim h [ ]
read_digits-digits max (suc fuel) n h k = elim (Bool-cases (ltb n 10)) [
  | inl small ↦ rw small (read_digits_last max 0 n n (ground arith) (omega arith) k)
  | inr large ↦
      rw
        (
          large,
          read_digits-append max 10 (some 0) (digits_from fuel (n / 10)) ((48 + n % 10) ∷ []),
          read_digits-digits max fuel (n / 10) (ground arith) (omega arith),
        )
        (read_digits_last max (n / 10) (n % 10) n (omega arith) (omega arith) k)
]

-- A decimal digit: neither a sign, nor white space.
abbrev pub IsDigit : ℕ → Type 0
IsDigit c = (48 ≤ c) × (c ≤ 57)

digits_from-IsDigit : (fuel n : ℕ) → All IsDigit (digits_from fuel n)
unfolding digits_from
digits_from-IsDigit zero n = tt
digits_from-IsDigit (suc fuel) n = elim (Bool-cases (ltb n 10)) [
  | inl small ↦ rw small ((omega arith, ground arith), tt)
  | inr large ↦ rw large (
      All-append IsDigit (digits_from fuel (n / 10)) ((48 + n % 10) ∷ [])
        (digits_from-IsDigit fuel (n / 10)) ((omega arith, omega arith), tt))
]

pub digits-IsDigit : (n : ℕ) → All IsDigit (digits n)
unfolding digits
digits-IsDigit n = digits_from-IsDigit (suc n) n

parse_radix-IsDigit :
    (max : ℕ) (cs : Chars) (n : ℕ)
    → All IsDigit cs
    → cs ≢ []
    → read_digits max 10 (some 0) cs ≡ some n
    → parse_radix max 10 cs ≡ some n
unfolding parse_radix some_digits
parse_radix-IsDigit max [] n d e h = absurd (e refl)
parse_radix-IsDigit max (c ∷ cs) n d e h = ground arith

append_last-ne-nil : (xs : Chars) (c : ℕ) → xs ++ (c ∷ []) ≢ []
append_last-ne-nil [] c = ground arith
append_last-ne-nil (x ∷ xs) c = ground arith

pub digits-ne-nil : (n : ℕ) → digits n ≢ []
unfolding digits digits_from
digits-ne-nil n = elim (Bool-cases (ltb n 10)) [
  | inl small ↦ rw small (ground arith)
  | inr large ↦ rw large (append_last-ne-nil (digits_from n (n / 10)) (48 + n % 10))
]

-- A printed number that fits is read back.
pub parse_radix-digits : (max n : ℕ) → n ≤ max → parse_radix max 10 (digits n) ≡ some n
unfolding digits
parse_radix-digits max n h =
    parse_radix-IsDigit max (digits n) n (digits-IsDigit n) (digits-ne-nil n)
      (read_digits-digits max (suc n) n (omega arith) h)
