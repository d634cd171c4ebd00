-- ===== src/Policy/Features.antt =====
-- The input of an evaluation and its checks, and the rates of the kernel's counters
-- (crates/policy-engine/src/features.rs).
pub mod Rates
use nemor.Base.{
  ℕ, Bool, false, not, ◌&&◌, ◌||◌, String, Option, none, some, List, [], ◌∷◌, ltb, ◌==◌, str_eq,
  is_some_and, if◌then◌else◌, checked_sub, Result, ok, ◌>>◌, reject,
}
use nemor.Base.Integer.{ℤ, pos, negsuc, ltb_ℤ, checked_sub_i64}
use nemor.Base.Float.{Float}
use nemor.Classifier.Model.{WorkloadClass, ForegroundState}
use nemor.Actuator.Types.{CgroupCapabilities}
use nemor.Policy.State.{PolicyError, invalid_input}

pub record PolicyInput (F : Type 0) : Type 0 where
  pub timestamp_ns : ℤ
  pub ram_total_bytes : ℕ
  pub mem_available_bytes : ℕ
  pub available_percent : F
  pub swap_total_bytes : Option ℕ
  pub swap_used_bytes : Option ℕ
  pub swap_in_per_second : Option F
  pub swap_out_per_second : Option F
  pub major_faults_per_second : Option F
  pub pgscan_per_second : Option F
  pub pgsteal_per_second : Option F
  pub psi_memory_some_avg10 : Option F
  pub psi_memory_full_avg10 : Option F
  pub workload_class : Option WorkloadClass
  pub workload_confidence : Option F
  pub gaming : Bool
  pub critical_processes : ℕ
  pub protected_processes : ℕ
  pub unknown_processes : ℕ
  pub foreground : ForegroundState
  pub cgroup_capabilities : Option CgroupCapabilities
  pub actuator_available : Bool
  pub recent_safety_events : ℕ
  pub recent_decisions : ℕ

abbrev pub Checked : Type 0
Checked = Result PolicyError (Unit {0})

-- `used > total` where both are known.
used_exceeds : Option ℕ → Option ℕ → Bool
used_exceeds (some total) (some used) = ltb total used
used_exceeds none used = false
used_exceeds total none = false

module _ {F : Type 0} (fl : Float F) where
  unfoldable pub finite_range : String → F → F → F → Checked
  finite_range field value low high =
      reject (not (fl.is_finite value && (fl.le low value && fl.le value high)))
        (invalid_input field "must be finite and in range")

  check_rates : List (String × Option F) → Checked
  check_rates [] = ok tt
  check_rates ((field, value) ∷ rest) =
      reject (is_some_and value (λ v. not (fl.is_finite v) || fl.lt v (fl.of_nat 0)))
        (invalid_input field "must be finite and non-negative")
      >> check_rates rest

  check_range : String → Option F → Checked
  unfolding finite_range
  check_range field none = ok tt
  check_range field (some value) =
      finite_range field value (fl.of_nat 0)
        (if str_eq field "workload_confidence" then fl.of_nat 1 else fl.of_nat 100)

  check_ranges : List (String × Option F) → Checked
  unfolding check_range
  check_ranges [] = ok tt
  check_ranges ((field, value) ∷ rest) = check_range field value >> check_ranges rest

  unfoldable pub validate : PolicyInput F → Checked
  unfolding finite_range used_exceeds check_rates check_ranges
  validate i = do
    reject (ltb_ℤ i.timestamp_ns (pos 0)) (invalid_input "timestamp_ns" "must be non-negative")
    reject (i.ram_total_bytes == 0) (invalid_input "ram_total_bytes" "must be greater than zero")
    reject (ltb i.ram_total_bytes i.mem_available_bytes)
        (invalid_input "mem_available_bytes" "must not exceed total RAM")
    finite_range "available_percent" i.available_percent (fl.of_nat 0) (fl.of_nat 100)
    reject (used_exceeds i.swap_total_bytes i.swap_used_bytes)
        (invalid_input "swap_used_bytes" "must not exceed swap total")
    check_rates (
        ("swap_in_per_second", i.swap_in_per_second)
        ∷ ("swap_out_per_second", i.swap_out_per_second)
        ∷ ("major_faults_per_second", i.major_faults_per_second)
        ∷ ("pgscan_per_second", i.pgscan_per_second)
        ∷ ("pgsteal_per_second", i.pgsteal_per_second)
        ∷ [])
    check_ranges (
        ("psi_memory_some_avg10", i.psi_memory_some_avg10)
        ∷ ("psi_memory_full_avg10", i.psi_memory_full_avg10)
        ∷ ("workload_confidence", i.workload_confidence)
        ∷ [])

pub record CounterSample : Type 0 where
  pub timestamp_ns : ℤ
  pub swap_in : Option ℕ
  pub swap_out : Option ℕ
  pub major_faults : Option ℕ
  pub pgscan : Option ℕ
  pub pgsteal : Option ℕ

pub record RateFeatures (F : Type 0) : Type 0 where
  pub swap_in_per_second : Option F
  pub swap_out_per_second : Option F
  pub major_faults_per_second : Option F
  pub pgscan_per_second : Option F
  pub pgsteal_per_second : Option F

pub record RateTracker : Type 0 where
  pub previous : Option CounterSample

module _ {F : Type 0} (fl : Float F) where
  -- The three `?` of the source, then the checked subtraction.
  unfoldable pub rate : Option ℕ → Option ℕ → Option F → Option F
  rate none current seconds = none
  rate (some p) none seconds = none
  rate (some p) (some c) none = none
  rate (some p) (some c) (some s) = elim (checked_sub c p) [
    | none ↦ none
    | some delta ↦ some (fl.div (fl.of_nat delta) s)
  ]

  -- Nanoseconds as seconds, where the clock moved forward.
  unfoldable pub seconds_of : Option ℤ → Option F
  seconds_of none = none
  seconds_of (some (negsuc n)) = none
  seconds_of (some (pos n)) =
      if ltb 0 n then some (fl.div (fl.of_nat n) (fl.of_nat 1_000_000_000)) else none

  unfoldable pub rates_between : CounterSample → CounterSample → RateFeatures F
  rates_between p c =
      let seconds = seconds_of (checked_sub_i64 c.timestamp_ns p.timestamp_ns) in
      record {
        swap_in_per_second = rate p.swap_in c.swap_in seconds;
        swap_out_per_second = rate p.swap_out c.swap_out seconds;
        major_faults_per_second = rate p.major_faults c.major_faults seconds;
        pgscan_per_second = rate p.pgscan c.pgscan seconds;
        pgsteal_per_second = rate p.pgsteal c.pgsteal seconds;
      }

  unfoldable pub no_rates : RateFeatures F
  no_rates = record {
    swap_in_per_second = none;
    swap_out_per_second = none;
    major_faults_per_second = none;
    pgscan_per_second = none;
    pgsteal_per_second = none;
  }

  rates_after : Option CounterSample → CounterSample → RateFeatures F
  unfolding no_rates rates_between
  rates_after none current = no_rates
  rates_after (some previous) current = rates_between previous current

  unfoldable pub update : RateTracker → CounterSample → RateTracker × RateFeatures F
  unfolding rates_after
  update tracker current =
      (record { previous = some current }, rates_after tracker.previous current)
