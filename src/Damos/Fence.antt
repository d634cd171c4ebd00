-- ===== src/Damos/Fence.antt =====
-- The address fence and the check of reclaim candidates against it (crates/damos/src/lib.rs).
pub mod Candidates
use nemor.Base.{
  ℕ, Bool, true, false, not, ◌&&◌, ◌||◌, String, Option, none, some, List, [], ◌∷◌, ltb, leb, ◌==◌,
  str_eq, is_empty, Result, ok, ◌>>◌, reject, is_ok,
}
use nemor.Damon.Ranges.{AddressRange, range_eq, overlap}
use nemor.Damos.Types.{DamosBeforeApplyEvent, Checked, invalid}

pub data FilterApi : Type 0 where
  legacy_matching_only matching_allow : FilterApi

pub record AddressFence : Type 0 where
  pub range : AddressRange
  pub layer : String
  pub filter_type : String
  pub api : FilterApi
  pub matching : Bool
  pub allow : Option Bool

-- `allow == Some(true)`, `allow.is_none()`.
abbrev allowed : Option Bool → Bool
allowed none = false
allowed (some b) = b

abbrev absent : Option Bool → Bool
absent none = true
absent (some _) = false

unfoldable pub semantics : FilterApi → Bool → Option Bool → Bool
semantics matching_allow matching allow = matching && allowed allow
semantics legacy_matching_only matching allow = not matching && absent allow

unfoldable pub validate : AddressFence → AddressRange → Checked
validate fence cold =
    reject
      (not (str_eq fence.layer "core")
        || (not (str_eq fence.filter_type "addr")
            || (not (semantics fence.api fence.matching fence.allow)
                || not (range_eq fence.range cold))))
      (invalid "address fence does not exactly match COLD")

unfoldable pub allows : AddressFence → ℕ → Bool
allows fence address =
    is_ok (validate fence fence.range)
    && (leb fence.range.start address && ltb address fence.range.end)

unfoldable pub is_external : DamosBeforeApplyEvent → Bool
is_external e = not (e.context_idx == 0) || (not (e.scheme_idx == 0) || not (e.target_idx == 0))

unfoldable pub violates :
    DamosBeforeApplyEvent → AddressRange → AddressRange → AddressRange → ℕ → Bool
violates e hot warm cold age_min =
    ltb e.range.start cold.start
    || (ltb cold.end e.range.end
        || (ltb 0 (overlap e.range hot)
            || (ltb 0 (overlap e.range warm) || (not (e.nr_accesses == 0) || ltb e.age age_min))))

unfoldable pub check_candidates :
    List DamosBeforeApplyEvent → AddressRange → AddressRange → AddressRange → ℕ → Checked
check_candidates [] hot warm cold age_min = ok tt
check_candidates (e ∷ es) hot warm cold age_min = do
  reject (is_external e) (invalid "external DAMOS event rejected")
  reject (violates e hot warm cold age_min)
      (invalid "candidate violates COLD fence or access pattern")
  check_candidates es hot warm cold age_min

unfoldable pub validate_shadow_candidates :
    List DamosBeforeApplyEvent → AddressRange → AddressRange → AddressRange → ℕ → Checked
validate_shadow_candidates candidates hot warm cold age_min = do
  reject (is_empty candidates) (invalid "cumulative counters cannot replace candidate evidence")
  check_candidates candidates hot warm cold age_min
