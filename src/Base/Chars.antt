-- ===== src/Base/Chars.antt =====
-- Text as a list of code points, and the methods of `str` that the parsers call.
pub mod Numbers
pub mod Splitting
use Prim.Native.Char.{code}
use Prim.Native.Nat.{ℕ, ◌+◌, ◌-◌, ◌*◌}
use Prim.Native.String.{String}
use mathlib.Core.Bool.{Bool, true, false, ◌&&◌, ◌||◌}
use mathlib.Core.List.{List, [], ◌∷◌}
use mathlib.Core.Option.{Option, none, some}
use nemor.Base.Tests.{ltb, leb, ◌==◌, if◌then◌else◌}
use nemor.Base.Lists.{is_empty}

abbrev pub Chars : Type 0
Chars = List ℕ

abbrev pub codes : String → Chars
codes String.[] = []
codes (String.◌∷◌ c s) = code c ∷ codes s

abbrev pub chars_eq : Chars → Chars → Bool
chars_eq [] [] = true
chars_eq [] (d ∷ ds) = false
chars_eq (c ∷ cs) [] = false
chars_eq (c ∷ cs) (d ∷ ds) = (c == d) && chars_eq cs ds

-- `char::is_whitespace`.
unfoldable pub is_whitespace : ℕ → Bool
is_whitespace c =
    (leb 9 c && leb c 13)
    || ((c == 32)
        || ((c == 133)
            || ((c == 160)
                || ((c == 5760)
                    || ((leb 8192 c && leb c 8202)
                        || ((c == 8232)
                            || ((c == 8233) || ((c == 8239) || ((c == 8287) || (c == 12288))))))))))

-- `trim_start`, `trim_end` and `trim`.
unfoldable pub trim_start : Chars → Chars
trim_start [] = []
trim_start (c ∷ cs) = if is_whitespace c then trim_start cs else c ∷ cs

unfoldable pub trim_end : Chars → Chars
trim_end [] = []
trim_end (c ∷ cs) =
    let rest = trim_end cs in if is_whitespace c && is_empty rest then [] else c ∷ rest

unfoldable pub trim : Chars → Chars
unfolding trim_start trim_end
trim cs = trim_end (trim_start cs)

-- `strip_prefix`.
unfoldable pub strip_prefix : Chars → Chars → Option Chars
strip_prefix [] cs = some cs
strip_prefix (p ∷ ps) [] = none
strip_prefix (p ∷ ps) (c ∷ cs) = if p == c then strip_prefix ps cs else none

-- `split_whitespace`: the word that the text begins with, and the words after it.
record Words : Type 0 where
  first : Chars
  later : List Chars

all_words : Words → List Chars
all_words w = if is_empty w.first then w.later else w.first ∷ w.later

unfoldable add_char : ℕ → Words → Words
unfolding all_words is_whitespace
add_char c w =
    if is_whitespace c
    then record { first = []; later = all_words w }
    else record w { first = c ∷ w.first }

unfoldable words_from : Chars → Words
unfolding add_char
words_from [] = record { first = []; later = [] }
words_from (c ∷ cs) = add_char c (words_from cs)

unfoldable pub split_whitespace : Chars → List Chars
unfolding all_words words_from
split_whitespace cs = all_words (words_from cs)

-- `split(separator)`: one part at least.
cons_head : ℕ → List Chars → List Chars
cons_head c [] = (c ∷ []) ∷ []
cons_head c (part ∷ parts) = (c ∷ part) ∷ parts

unfoldable pub split_on : ℕ → Chars → List Chars
unfolding cons_head
split_on separator [] = [] ∷ []
split_on separator (c ∷ cs) =
    let rest = split_on separator cs in if c == separator then [] ∷ rest else cons_head c rest

-- `split_once(separator)`: the text before and after the first separator.
before_cons : ℕ → Option (Chars × Chars) → Option (Chars × Chars)
before_cons c none = none
before_cons c (some (before, after)) = some (c ∷ before, after)

unfoldable pub split_once : ℕ → Chars → Option (Chars × Chars)
unfolding before_cons
split_once separator [] = none
split_once separator (c ∷ cs) =
    let rest = before_cons c (split_once separator cs) in
    if c == separator then some ([], cs) else rest

-- `lines`: a line ends with a newline or with a carriage return and a newline.
unfoldable pub strip_return : Chars → Chars
strip_return [] = []
strip_return (c ∷ cs) = if (c == 13) && is_empty cs then [] else c ∷ strip_return cs

unfoldable pub finish_lines : List Chars → List Chars
unfolding strip_return
finish_lines [] = []
finish_lines (line ∷ []) = if is_empty line then [] else line ∷ []
finish_lines (line ∷ (next ∷ rest)) = strip_return line ∷ finish_lines (next ∷ rest)

unfoldable pub lines : Chars → List Chars
unfolding split_on finish_lines
lines cs = finish_lines (split_on b'\n' cs)
