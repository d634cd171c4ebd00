-- ===== src/Base/Chars/Splitting.antt =====
-- What the words and the lines of a composed text are.
use Prim.Native.Nat.{ℕ}
use mathlib.Core.Path.{◌≡◌, refl}
use mathlib.Core.Logic.{◌≢◌}
use mathlib.Core.Bool.{false}
use mathlib.Core.List.{List, [], ◌∷◌, ◌++◌}
use native.Mathlib.Omega.{arith}
use nemor.Base.Lists.{All, is_empty}
use nemor.Base.Chars.{
  Chars, is_whitespace, words_from, add_char, all_words, split_whitespace, split_on, cons_head,
  strip_return, finish_lines, lines,
}

-- Characters of a word, and of a line.
abbrev pub InWord : ℕ → Type 0
InWord c = is_whitespace c ≡ false

abbrev pub InLine : ℕ → Type 0
InLine c = (c ≢ b'\n') × (c ≢ 13)

words_from-word :
    (w rest : Chars)
    → All InWord w
    → words_from (w ++ (b' ' ∷ rest)) ≡ record { first = w; later = split_whitespace rest }
unfolding words_from add_char is_whitespace split_whitespace
words_from-word [] rest h = refl
words_from-word (c ∷ cs) rest h = rw (words_from-word cs rest h.1, h.0)

-- A word and a space.
pub split_whitespace-word :
    (w rest : Chars)
    → All InWord w
    → is_empty w ≡ false
    → split_whitespace (w ++ (b' ' ∷ rest)) ≡ w ∷ split_whitespace rest
unfolding split_whitespace all_words
split_whitespace-word w rest h e = rw (words_from-word w rest h, e)

split_on-line :
    (sep : ℕ) (l rest : Chars)
    → All (λ c. c ≢ sep) l
    → split_on sep (l ++ (sep ∷ rest)) ≡ l ∷ split_on sep rest
unfolding split_on cons_head
split_on-line sep [] rest h = ground arith
split_on-line sep (c ∷ cs) rest h = ground (arith, split_on-line sep cs rest h.1)

strip_return-InLine : (l : Chars) → All InLine l → strip_return l ≡ l
unfolding strip_return
strip_return-InLine [] h = refl
strip_return-InLine (c ∷ cs) h = ground (arith, strip_return-InLine cs h.1)

cons_head-ne-nil : (c : ℕ) (ps : List Chars) → cons_head c ps ≢ []
unfolding cons_head
cons_head-ne-nil c [] = ground arith
cons_head-ne-nil c (p ∷ ps) = ground arith

split_on-ne-nil : (sep : ℕ) (cs : Chars) → split_on sep cs ≢ []
unfolding split_on
split_on-ne-nil sep [] = ground arith
split_on-ne-nil sep (c ∷ cs) = ground (arith, cons_head-ne-nil c (split_on sep cs))

finish_lines-cons :
    (l : Chars) (ps : List Chars)
    → ps ≢ []
    → finish_lines (l ∷ ps) ≡ strip_return l ∷ finish_lines ps
unfolding finish_lines
finish_lines-cons l [] h = absurd (h refl)
finish_lines-cons l (p ∷ ps) h = refl

All-InLine : (l : Chars) → All InLine l → All (λ c. c ≢ b'\n') l
All-InLine [] h = tt
All-InLine (c ∷ cs) h = (h.0.0, All-InLine cs h.1)

-- A line and a newline.
pub lines-line : (l rest : Chars) → All InLine l → lines (l ++ (b'\n' ∷ rest)) ≡ l ∷ lines rest
unfolding lines
lines-line l rest h = rw (
  split_on-line b'\n' l rest (All-InLine l h),
  finish_lines-cons l (split_on b'\n' rest) (split_on-ne-nil b'\n' rest),
  strip_return-InLine l h,
)

pub split_whitespace-space : (cs : Chars) → split_whitespace (b' ' ∷ cs) ≡ split_whitespace cs
unfolding split_whitespace words_from add_char all_words is_whitespace
split_whitespace-space cs = refl

pub lines-nil : lines [] ≡ []
unfolding lines split_on finish_lines
lines-nil = refl
