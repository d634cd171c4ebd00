-- ===== src/Ksm/Counters.antt =====
-- The parsers of the counters that the kernel prints (crates/ksm/src/lib.rs).
pub mod RoundTrip
use nemor.Base.{
  ℕ, Bool, true, false, ◌||◌, ◌*◌, String, Option, none, some, List, [], ◌∷◌, ◌==◌, is_empty,
  if◌then◌else◌, saturating_add, saturating_mul,
}
use nemor.Base.Integer.{ℤ}
use nemor.Base.Chars.{Chars, codes, chars_eq, trim, lines, split_whitespace, strip_prefix}
use nemor.Base.Chars.Numbers.{parse_u64, parse_i64}
use nemor.Ksm.Types.{StableProcessIdentity, KsmProcessMetrics}

-- `split_whitespace().next()`.
abbrev pub head : List Chars → Option Chars
head [] = none
head (w ∷ ws) = some w

abbrev pub parse_opt : Option Chars → Option ℕ
parse_opt none = none
parse_opt (some w) = parse_u64 w

-- A map from keys to values, the newest first, so that an insertion replaces.
abbrev pub get {ℓ} : {V : Type ℓ} → Chars → List (Chars × V) → Option V
get key [] = none
get key ((k, v) ∷ rest) = if chars_eq k key then some v else get key rest

unfoldable pub vmstat_value : Chars → Option ℕ → List (Chars × ℕ) → List (Chars × ℕ)
vmstat_value key none found = found
vmstat_value key (some value) found =
    if chars_eq key (codes "cow_ksm") || chars_eq key (codes "ksm_swpin_copy")
    then (key, value) ∷ found
    else found

unfoldable pub vmstat_line : List Chars → List (Chars × ℕ) → List (Chars × ℕ)
unfolding vmstat_value
vmstat_line [] found = found
vmstat_line (key ∷ fields) found = vmstat_value key (parse_opt (head fields)) found

unfoldable pub vmstat_lines : List Chars → List (Chars × ℕ) → List (Chars × ℕ)
unfolding vmstat_line
vmstat_lines [] found = found
vmstat_lines (line ∷ rest) found = vmstat_lines rest (vmstat_line (split_whitespace line) found)

unfoldable pub parse_vmstat_ksm : Chars → List (Chars × ℕ)
unfolding vmstat_lines
parse_vmstat_ksm text = vmstat_lines (lines text) []

-- The sum over the `KSM:` lines. An amount that cannot be read voids the whole answer.
unfoldable pub add_kib : Option ℕ → ℕ → Option ℕ
add_kib none total = none
add_kib (some kib) total = some (saturating_add total (saturating_mul kib 1024))

-- A line without the prefix is skipped.
unfoldable pub ksm_line : Option Chars → Bool × Option ℕ → Bool × Option ℕ
unfolding add_kib
ksm_line _ (found, none) = (found, none)
ksm_line none (found, some total) = (found, some total)
ksm_line (some value) (found, some total) =
    (true, add_kib (parse_opt (head (split_whitespace value))) total)

unfoldable pub ksm_lines : List Chars → Bool × Option ℕ → Bool × Option ℕ
unfolding ksm_line
ksm_lines [] acc = acc
ksm_lines (line ∷ rest) acc = ksm_lines rest (ksm_line (strip_prefix (codes "KSM:") line) acc)

unfoldable pub found_total : Bool × Option ℕ → Option ℕ
found_total (found, none) = none
found_total (found, some total) = if found then some total else none

unfoldable pub parse_smaps_ksm_bytes : Chars → Option ℕ
unfolding ksm_lines found_total
parse_smaps_ksm_bytes text = found_total (ksm_lines (lines text) (false, some 0))

unfoldable pub parse_yes_no : Chars → Option Bool
parse_yes_no value =
    let v = trim value in
    if chars_eq v (codes "yes") || (chars_eq v (codes "1") || chars_eq v (codes "Y"))
    then some true
    else if chars_eq v (codes "no") || (chars_eq v (codes "0") || chars_eq v (codes "N"))
    then some false
    else none

-- `line.replace(':', " ")`.
unfoldable pub colons_to_spaces : Chars → Chars
colons_to_spaces [] = []
colons_to_spaces (c ∷ cs) = (if c == b':' then b' ' else c) ∷ colons_to_spaces cs

unfoldable pub stat_entry : List Chars → List (Chars × Chars) → List (Chars × Chars)
stat_entry (key ∷ (value ∷ _)) found = (key, value) ∷ found
stat_entry _ found = found

unfoldable pub stat_entries : List Chars → List (Chars × Chars) → List (Chars × Chars)
unfolding stat_entry colons_to_spaces
stat_entries [] found = found
stat_entries (line ∷ rest) found =
    stat_entries rest (stat_entry (split_whitespace (colons_to_spaces line)) found)

abbrev pub and_then {ℓ κ} : {A : Type ℓ} {B : Type κ} → Option A → (A → Option B) → Option B
and_then none f = none
and_then (some a) f = f a

unfoldable pub parse_process_ksm_stat : Chars → StableProcessIdentity → KsmProcessMetrics
unfolding stat_entries parse_yes_no
parse_process_ksm_stat text identity =
    let values = stat_entries (lines text) [] in
    let unsigned = λ (key : String). and_then (get (codes key) values) parse_u64 in
    let flag = λ (key : String). and_then (get (codes key) values) parse_yes_no in
    record {
      identity = identity;
      profile = none;
      ksm_rmap_items = unsigned "ksm_rmap_items";
      ksm_zero_pages = unsigned "ksm_zero_pages";
      ksm_merging_pages = unsigned "ksm_merging_pages";
      ksm_process_profit = and_then (get (codes "ksm_process_profit") values) parse_i64;
      ksm_merge_any = flag "ksm_merge_any";
      ksm_mergeable = flag "ksm_mergeable";
      current_mapped_ksm_bytes = none;
      residual_accounting = false;
      rss_bytes = none;
      pss_bytes = none;
    }
