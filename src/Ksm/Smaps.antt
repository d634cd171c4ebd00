-- ===== src/Ksm/Smaps.antt =====
-- The mappings of a process read from `smaps` (parse_smaps_areas of crates/ksm/src/lib.rs).
use nemor.Base.{
  ℕ, Bool, false, not, String, Option, none, some, List, [], ◌∷◌, ◌++◌, ◌-◌, ltb, ◌==◌, any,
  if◌then◌else◌, saturating_mul, u64_max,
}
use nemor.Base.Chars.{Chars, codes, chars_eq, lines, split_whitespace, split_once, strip_prefix}
use nemor.Base.Chars.Numbers.{parse_u64, parse_u8, parse_radix}
use nemor.Ksm.Counters.{head, and_then}

pub record AddressRange : Type 0 where
  pub start : ℕ
  pub end : ℕ

-- `end.saturating_sub(start)`.
abbrev pub len : AddressRange → ℕ
len r = r.end - r.start

abbrev pub is_valid : AddressRange → Bool
is_valid r = ltb r.start r.end

abbrev pub range_is_empty : AddressRange → Bool
range_is_empty r = not (is_valid r)

pub record SmapsArea : Type 0 where
  pub range : AddressRange
  pub mergeable : Bool
  pub no_hugepage : Bool
  pub kernel_page_size_bytes : Option ℕ
  pub mmu_page_size_bytes : Option ℕ
  pub anon_huge_pages_bytes : Option ℕ
  pub thp_eligible : Option Bool
  pub vm_flags : List Chars

hex_bounds : Option ℕ → Option ℕ → Option AddressRange
hex_bounds none end = none
hex_bounds (some start) none = none
hex_bounds (some start) (some end) = some (record { start = start; end = end })

unfoldable pub hex_token : Option Chars → Option AddressRange
unfolding hex_bounds split_once parse_radix
hex_token none = none
hex_token (some token) =
    and_then (split_once b'-' token)
      λ parts. hex_bounds (parse_radix u64_max 16 parts.0) (parse_radix u64_max 16 parts.1)

unfoldable pub parse_hex_range : Chars → Option AddressRange
unfolding hex_token split_whitespace
parse_hex_range line = hex_token (head (split_whitespace line))

unfoldable pub kib_words : List Chars → Option ℕ
unfolding parse_radix
kib_words (amount ∷ (unit ∷ _)) =
    and_then (parse_u64 amount)
      λ n. if chars_eq unit (codes "kB") then some (saturating_mul n 1024) else none
kib_words _ = none

unfoldable pub parse_smaps_kib : Chars → Option ℕ
unfolding kib_words split_whitespace
parse_smaps_kib value = kib_words (split_whitespace value)

abbrev pub has_flag : String → List Chars → Bool
has_flag flag flags = any (chars_eq (codes flag)) flags

abbrev new_area : AddressRange → SmapsArea
new_area range = record {
  range = range;
  mergeable = false;
  no_hugepage = false;
  kernel_page_size_bytes = none;
  mmu_page_size_bytes = none;
  anon_huge_pages_bytes = none;
  thp_eligible = none;
  vm_flags = [];
}

thp_value : Chars → Option Bool
thp_value value =
    and_then (head (split_whitespace value))
      λ item. and_then (parse_u8 item) λ n. some (not (n == 0))

set_flags : Chars → SmapsArea → SmapsArea
set_flags flags area =
    let words = split_whitespace flags in
    record area {
      vm_flags = words;
      mergeable = has_flag "mg" words;
      no_hugepage = has_flag "nh" words;
    }

-- The fields of an area, tried in the order of the source; any other line changes nothing.
field_or : Option Chars → (Chars → SmapsArea) → SmapsArea → SmapsArea
field_or none set other = other
field_or (some value) set other = set value

unfoldable pub area_line : Chars → SmapsArea → SmapsArea
unfolding thp_value set_flags field_or parse_smaps_kib split_whitespace strip_prefix parse_radix
area_line line area =
    field_or (strip_prefix (codes "KernelPageSize:") line)
      (λ v. record area { kernel_page_size_bytes = parse_smaps_kib v })
      (field_or (strip_prefix (codes "MMUPageSize:") line)
        (λ v. record area { mmu_page_size_bytes = parse_smaps_kib v })
        (field_or (strip_prefix (codes "AnonHugePages:") line)
          (λ v. record area { anon_huge_pages_bytes = parse_smaps_kib v })
          (field_or (strip_prefix (codes "THPeligible:") line)
            (λ v. record area { thp_eligible = thp_value v })
            (field_or (strip_prefix (codes "VmFlags:") line) (λ v. set_flags v area) area))))

abbrev close_area : Option SmapsArea → List SmapsArea → List SmapsArea
close_area none areas = areas
close_area (some area) areas = areas ++ (area ∷ [])

abbrev update_area : Chars → Option SmapsArea → Option SmapsArea
update_area line none = none
update_area line (some area) = some (area_line line area)

unfoldable pub smaps_line :
    Option AddressRange
    → Chars
    → Option SmapsArea × List SmapsArea
    → Option SmapsArea × List SmapsArea
smaps_line none line (current, areas) = (update_area line current, areas)
smaps_line (some range) line (current, areas) = (some (new_area range), close_area current areas)

unfoldable pub smaps_lines :
    List Chars → Option SmapsArea × List SmapsArea → Option SmapsArea × List SmapsArea
unfolding smaps_line parse_hex_range area_line
smaps_lines [] acc = acc
smaps_lines (line ∷ rest) acc = smaps_lines rest (smaps_line (parse_hex_range line) line acc)

unfoldable pub parse_smaps_areas : Chars → List SmapsArea
unfolding smaps_lines lines
parse_smaps_areas text =
    let (current, areas) = smaps_lines (lines text) (none, []) in close_area current areas
