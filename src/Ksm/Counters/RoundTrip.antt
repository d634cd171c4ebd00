-- ===== src/Ksm/Counters/RoundTrip.antt =====
-- The kernel's `KSM:` lines parse to the sum of the amounts they print (crates/ksm/src/lib.rs).
use nemor.Base.{
  ℕ, zero, suc, not, ◌||◌, ◌≤◌, ◌≢◌, ◌≡◌, ◌∙◌, refl, Bool, true, false, some, List, [], ◌∷◌, ◌++◌,
  arith, All, All-append, is_empty, saturating_add, saturating_mul, u64_max,
}
use nemor.Base.Chars.{Chars, codes, lines, split_whitespace, is_whitespace, strip_prefix}
use nemor.Base.Chars.Numbers.{digits, IsDigit, digits-IsDigit, digits-ne-nil, parse_radix-digits}
use nemor.Base.Chars.Splitting.{
  InWord, InLine, split_whitespace-space, split_whitespace-word, lines-line, lines-nil,
}
use nemor.Ksm.Counters.{ksm_line, ksm_lines, add_kib, found_total, parse_smaps_ksm_bytes, head}

-- White space before the amount.
abbrev pub spaces : ℕ → Chars
spaces zero = []
spaces (suc n) = b' ' ∷ spaces n

-- One line, `KSM:` with the amount in KiB, and a text of such lines, each with its padding.
abbrev pub ksm_text : ℕ → ℕ → Chars
ksm_text pad kib = codes "KSM:" ++ (spaces pad ++ (digits kib ++ codes " kB"))

abbrev pub smaps_text : List (ℕ × ℕ) → Chars
smaps_text [] = []
smaps_text ((pad, kib) ∷ rest) = ksm_text pad kib ++ (b'\n' ∷ smaps_text rest)

-- The bytes of the amounts, each product and the sum saturated.
abbrev pub total_bytes : List (ℕ × ℕ) → ℕ → ℕ
total_bytes [] total = total
total_bytes ((pad, kib) ∷ rest) total =
    total_bytes rest (saturating_add total (saturating_mul kib 1024))

IsDigit-InWord : (cs : Chars) → All IsDigit cs → All InWord cs
unfolding is_whitespace
IsDigit-InWord [] h = tt
IsDigit-InWord (c ∷ cs) h = (ground arith, IsDigit-InWord cs h.1)

IsDigit-InLine : (cs tail : Chars) → All IsDigit cs → All InLine tail → All InLine (cs ++ tail)
IsDigit-InLine [] tail h k = k
IsDigit-InLine (c ∷ cs) tail h k = ((omega arith, omega arith), IsDigit-InLine cs tail h.1 k)

is_empty-ne-nil : (cs : Chars) → cs ≢ [] → is_empty cs ≡ false
is_empty-ne-nil [] h = absurd (h refl)
is_empty-ne-nil (c ∷ cs) h = refl

spaces-InLine : (pad : ℕ) (tail : Chars) → All InLine tail → All InLine (spaces pad ++ tail)
spaces-InLine zero tail h = h
spaces-InLine (suc pad) tail h = ((omega arith, omega arith), spaces-InLine pad tail h)

ksm_text-InLine : (pad kib : ℕ) → All InLine (ksm_text pad kib)
ksm_text-InLine pad kib =
    All-append InLine (codes "KSM:") (spaces pad ++ (digits kib ++ codes " kB")) (omega arith) (
      spaces-InLine pad (digits kib ++ codes " kB")
        (IsDigit-InLine (digits kib) (codes " kB") (digits-IsDigit kib) (omega arith)))

split_whitespace-spaces :
    (pad : ℕ) (cs : Chars) → split_whitespace (spaces pad ++ cs) ≡ split_whitespace cs
split_whitespace-spaces zero cs = refl
split_whitespace-spaces (suc pad) cs =
    rw (split_whitespace-space (spaces pad ++ cs), split_whitespace-spaces pad cs)

first_word :
    (pad kib : ℕ)
    → head (split_whitespace (spaces pad ++ (digits kib ++ codes " kB"))) ≡ some (digits kib)
first_word pad kib = rw (
  split_whitespace-spaces pad (digits kib ++ codes " kB"),
  split_whitespace-word (digits kib) (codes "kB") (IsDigit-InWord (digits kib) (digits-IsDigit kib))
      (is_empty-ne-nil (digits kib) (digits-ne-nil kib)),
)

-- The amounts are within 64 bits.
abbrev pub IsU64 : ℕ × ℕ → Type 0
IsU64 (pad, kib) = kib ≤ u64_max

ksm_line_text :
    (pad kib : ℕ) (found : Bool) (total : ℕ)
    → kib ≤ u64_max
    → ksm_line (strip_prefix (codes "KSM:") (ksm_text pad kib)) (found, some total)
      ≡ (true, some (saturating_add total (saturating_mul kib 1024)))
unfolding ksm_line add_kib strip_prefix
ksm_line_text pad kib found total h = rw (first_word pad kib, parse_radix-digits u64_max kib h)

ksm_lines_text :
    (ls : List (ℕ × ℕ)) (total : ℕ) (found : Bool)
    → All IsU64 ls
    → ksm_lines (lines (smaps_text ls)) (found, some total)
      ≡ (found || not (is_empty ls), some (total_bytes ls total))
unfolding ksm_lines
ksm_lines_text [] total found h = rw lines-nil (ground arith)
ksm_lines_text ((pad, kib) ∷ rest) total found h =
    rw
      (
        lines-line (ksm_text pad kib) (smaps_text rest) (ksm_text-InLine pad kib),
        ksm_lines,
        ksm_line_text pad kib found total h.0,
      )
      (ksm_lines_text rest (saturating_add total (saturating_mul kib 1024)) true h.1 ∙ ground arith)

-- A text of one or more `KSM:` lines, with amounts of 64 bits, parses to their saturating sum in
-- bytes.
pub parse_smaps_ksm_bytes-smaps_text :
    (ls : List (ℕ × ℕ))
    → All IsU64 ls
    → is_empty ls ≡ false
    → parse_smaps_ksm_bytes (smaps_text ls) ≡ some (total_bytes ls 0)
unfolding parse_smaps_ksm_bytes found_total
parse_smaps_ksm_bytes-smaps_text ls h e = rw (ksm_lines_text ls 0 false h, e)
