-- ===== src/Common/Validate.antt =====
-- `Config::validate`, the checks of the sections `cgroups` and `pressure`, in the source's order.
use Prim.Native.Char.{code}
use Prim.Native.String.{len}
use nemor.Base.{
  ℕ, ◌+◌, ◌≤◌, ◌<◌, ◌≡◌, Bool, true, false, not, ◌&&◌, ◌||◌, String, List, [], ◌∷◌, arith, ltb, leb,
  ◌==◌, Result, ok, ◌>>◌, reject,
}
use nemor.Base.Float.{Float}
use nemor.Common.Config.{CgroupsConfig, PressureConfig}

-- `ConfigError::Validation`, the variant that these checks return.
pub data ConfigError : Type 0 where
  validation : (field message : String) → ConfigError

abbrev pub Checked : Type 0
Checked = Result ConfigError (Unit {0})

-- `byte.is_ascii_hexdigit() && !byte.is_ascii_uppercase()`.
is_lower_hex : ℕ → Bool
is_lower_hex c = (leb b'0' c && leb c b'9') || (leb b'a' c && leb c b'f')

all_lower_hex : String → Bool
unfolding is_lower_hex
all_lower_hex String.[] = true
all_lower_hex (String.◌∷◌ c s) = is_lower_hex (code c) && all_lower_hex s

check_identities : List String → Checked
unfolding all_lower_hex
check_identities [] = ok tt
check_identities (identity ∷ rest) =
    reject (not (len identity == 64) || not (all_lower_hex identity))
      (validation "cgroups.allowed_identities" "entries must be lowercase SHA-256 identities")
    >> check_identities rest

module _ {F : Type 0} (fl : Float F) where
  unfoldable pub validate_percentage : String → F → Checked
  validate_percentage field value =
      reject
        (not (fl.is_finite value && (fl.le (fl.of_nat 0) value && fl.le value (fl.of_nat 100))))
        (validation field "must be between 0 and 100 inclusive")

  unfoldable pub check_percentages : List (String × ℕ) → Checked
  unfolding validate_percentage
  check_percentages [] = ok tt
  check_percentages ((field, value) ∷ rest) =
      validate_percentage field (fl.of_nat value) >> check_percentages rest

  -- The loop and the three comparisons over `cgroups`, then the allow-list.
  unfoldable pub validate_cgroups : CgroupsConfig → Checked
  unfolding check_percentages check_identities
  validate_cgroups c = do
    check_percentages (
        ("cgroups.foreground_min_percent", c.foreground_min_percent)
        ∷ ("cgroups.foreground_max_percent", c.foreground_max_percent)
        ∷ ("cgroups.background_high_min_percent", c.background_high_min_percent)
        ∷ ("cgroups.background_high_max_percent", c.background_high_max_percent)
        ∷ ("cgroups.minimum_headroom_percent", c.minimum_headroom_percent)
        ∷ [])
    reject (ltb c.foreground_max_percent c.foreground_min_percent) (
        validation "cgroups.foreground_min_percent"
          "must not exceed cgroups.foreground_max_percent")
    reject (ltb c.background_high_max_percent c.background_high_min_percent) (
        validation "cgroups.background_high_min_percent"
          "must not exceed cgroups.background_high_max_percent")
    reject (ltb 100 (c.foreground_max_percent + c.minimum_headroom_percent)) (
        validation "cgroups.minimum_headroom_percent"
          "foreground maximum plus headroom must not exceed 100 percent")
    check_identities c.allowed_identities

  check_rate : String → F → Checked
  check_rate field value =
      reject (not (fl.is_finite value) || fl.lt value (fl.of_nat 0))
        (validation field "must be finite and non-negative")

  unfoldable pub validate_pressure : PressureConfig F → Checked
  unfolding check_percentages validate_percentage check_rate
  validate_pressure p = do
    check_percentages (
        ("pressure.watch_available_percent", p.watch_available_percent)
        ∷ ("pressure.pressure_available_percent", p.pressure_available_percent)
        ∷ ("pressure.critical_available_percent", p.critical_available_percent)
        ∷ ("pressure.emergency_available_percent", p.emergency_available_percent)
        ∷ [])
    reject
        (not (
          ltb p.pressure_available_percent p.watch_available_percent
          && (ltb p.critical_available_percent p.pressure_available_percent
              && ltb p.emergency_available_percent p.critical_available_percent)))
        (validation "pressure.watch_available_percent"
          "memory thresholds must satisfy watch > pressure > critical > emergency")
    validate_percentage "pressure.psi_some_avg10_threshold" p.psi_some_avg10_threshold
    validate_percentage "pressure.psi_full_avg10_threshold" p.psi_full_avg10_threshold
    validate_percentage "pressure.emergency_psi_full_avg10_threshold"
        p.emergency_psi_full_avg10_threshold
    check_rate "pressure.major_fault_rate_threshold" p.major_fault_rate_threshold
    check_rate "pressure.swap_in_rate_threshold" p.swap_in_rate_threshold
    check_rate "pressure.swap_out_rate_threshold" p.swap_out_rate_threshold
    reject (fl.le p.emergency_psi_full_avg10_threshold p.psi_full_avg10_threshold) (
        validation "pressure.emergency_psi_full_avg10_threshold"
          "must exceed pressure.psi_full_avg10_threshold")

-- The bounds that a validated section gives to the code that reads it.
pub record AreBounds (c : CgroupsConfig) : Type 0 where
  pub foreground : c.foreground_min_percent ≤ c.foreground_max_percent
  pub background : c.background_high_min_percent ≤ c.background_high_max_percent
  pub headroom : c.foreground_max_percent + c.minimum_headroom_percent ≤ 100

module _ {F : Type 0} (fl : Float F) where
  -- An accepted section `cgroups` has its percentages in order, and headroom above the foreground.
  pub validate_cgroups-AreBounds : (c : CgroupsConfig) → validate_cgroups fl c ≡ ok tt → AreBounds c
  unfolding validate_cgroups
  validate_cgroups-AreBounds c h = ground arith

  -- Accepted thresholds are strictly ordered.
  pub validate_pressure_ordered :
      (p : PressureConfig F)
      → validate_pressure fl p ≡ ok tt
      → (p.emergency_available_percent < p.critical_available_percent)
        × (p.critical_available_percent < p.pressure_available_percent)
        × (p.pressure_available_percent < p.watch_available_percent)
        × (fl.le p.emergency_psi_full_avg10_threshold p.psi_full_avg10_threshold ≡ false)
  unfolding validate_pressure
  validate_pressure_ordered p h = ground arith
