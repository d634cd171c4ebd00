-- ===== src/Zram/Profile.antt =====
-- The plan of a zram profile (crates/zram/src/profile.rs).
pub mod Guards
pub mod Selection
use Prim.Native.String.{compare}
use Prim.Native.Nat.{Ordering}
use text.Mathlib.Text.{is_lt, is_eq}
use nemor.Base.{
  ℕ, ◌*◌, ◌/◌, Bool, true, false, not, ◌&&◌, ◌||◌, String, Option, none, some, List, [], ◌∷◌,
  filter, find, any, is_empty, ltb, leb, ◌==◌, opt_eq, is_some, is_some_and, is_none_or, unwrap_or,
  str_eq, contains_str, push_if, min, max, saturating_add, saturating_mul, if◌then◌else◌,
}
use nemor.Base.Integer.{ℤ}
use nemor.Base.Float.{Float}
use nemor.Common.Config.{CompressionConfig}
use nemor.Policy.State.{PressureState}
use nemor.Zram.Types.{
  Provider, DeviceInventory, BenchmarkEvidence, ZramProfile, safe, gaming, capacity,
  ZramProfilePlan, is_explicit,
}
use nemor.Zram.Ranking.{sort_dedup, best_cost, best_gain}

abbrev profile_rule_version : String
profile_rule_version = "zram-profile-rules-v1"

unfoldable pub parse : String → Option ZramProfile
parse value =
    if str_eq value "safe"
    then some safe
    else if str_eq value "gaming"
    then some gaming
    else if str_eq value "capacity"
    then some capacity
    else none

pub record ProfileContext (F : Type 0) : Type 0 where
  pub requested : ZramProfile
  pub device : DeviceInventory
  pub benchmarks : List (BenchmarkEvidence F)
  pub total_ram_bytes : ℕ
  pub mem_available_bytes : ℕ
  pub current_used_bytes : ℕ
  pub pressure_state : PressureState
  pub psi_full_avg10 : Option F
  pub swap_in_per_second : Option F
  pub gaming : Bool
  pub pressure_worsening : Bool
  pub safety_events : ℕ
  pub rollback_pending : Bool
  pub provider_matches_snapshot : Bool

-- `==` on optional texts.
abbrev pub opt_str_eq : Option String → Option String → Bool
opt_str_eq none none = true
opt_str_eq none (some b) = false
opt_str_eq (some a) none = false
opt_str_eq (some a) (some b) = str_eq a b

abbrev pub is_unknown_provider : Provider → Bool
is_unknown_provider Provider.unknown = true
is_unknown_provider _ = false

-- `matches!(pressure_state, Critical | Emergency)`.
abbrev pub is_urgent : PressureState → Bool
is_urgent PressureState.critical = true
is_urgent PressureState.emergency = true
is_urgent _ = false

module _ {F : Type 0} where
  unfoldable pub proposed_disksize : ProfileContext F → CompressionConfig F → Option ℕ
  proposed_disksize c config =
      let maximum = saturating_mul c.total_ram_bytes config.max_zram_percent_ram / 100 in
      elim c.device.disksize [
        | none ↦ none
        | some current ↦ some (elim c.requested [
          | safe ↦ current
          | gaming ↦ current
          | capacity ↦ min (max current (saturating_mul c.current_used_bytes 2)) maximum
        ])
      ]

  unfoldable pub headroom_sufficient : ProfileContext F → CompressionConfig F → Bool
  headroom_sufficient c config =
      let minimum = saturating_mul c.total_ram_bytes config.safe_headroom_percent / 100 in
      leb (saturating_add minimum c.current_used_bytes) c.mem_available_bytes

module _ {F : Type 0} (fl : Float F) where
  -- The filter on the evidence that may be used.
  unfoldable pub is_valid : ProfileContext F → CompressionConfig F → BenchmarkEvidence F → Bool
  is_valid c config item =
      item.real
      && (leb 3 item.datasets
          && (contains_str c.device.available_algorithms item.algorithm
              && (is_some item.median_cpu_time_ns
                  && is_none_or item.cpu_overhead_percent (λ v.
                    fl.is_finite v
                    && (fl.le (fl.of_nat 0) v && fl.le v config.max_cpu_overhead_percent)))))

  -- The ratio that the current algorithm has, or one.
  unfoldable pub current_ratio : ProfileContext F → F
  current_ratio c =
      elim (find (λ item. opt_str_eq (some item.algorithm) c.device.current_algorithm)
        c.benchmarks) [
          | none ↦ fl.of_nat 1
          | some item ↦ unwrap_or item.median_effective_ratio (fl.of_nat 1)
        ]

  gains : ProfileContext F → CompressionConfig F → BenchmarkEvidence F → Bool
  gains c config item = is_some_and item.median_effective_ratio (λ ratio.
      fl.le
        (fl.mul (current_ratio c)
          (fl.add (fl.of_nat 1) (fl.div config.min_capacity_gain_percent (fl.of_nat 100))))
        ratio)

  abbrev pub or_current : Option String → Option String → Option String
  or_current none current = current
  or_current (some a) current = some a

  -- What a profile selects from the evidence that may be used.
  unfoldable pub select_for :
      ZramProfile
      → ProfileContext F
      → CompressionConfig F
      → List (BenchmarkEvidence F)
      → Option String
  unfolding gains
  select_for safe c config valid = c.device.current_algorithm
  select_for gaming c config valid =
      best_cost (filter (λ item. is_some item.median_write_throughput_bytes_sec) valid)
  select_for capacity c config valid =
      or_current (best_gain fl (filter (gains c config) valid)) c.device.current_algorithm

  select_valid : ProfileContext F → CompressionConfig F → List (BenchmarkEvidence F) → Option String
  select_valid c config [] = c.device.current_algorithm
  select_valid c config (x ∷ xs) = select_for c.requested c config (x ∷ xs)

  -- The first test of the source, for the safe profile, is the case of it in `select_for`.
  unfoldable pub select_algorithm : ProfileContext F → CompressionConfig F → Option String
  unfolding select_valid
  select_algorithm c config = select_valid c config (filter (is_valid c config) c.benchmarks)

  unfoldable pub requires_reinitialization : ProfileContext F → CompressionConfig F → Bool
  requires_reinitialization c config =
      let selected = select_algorithm c config in
      (is_some selected && not (opt_str_eq selected c.device.current_algorithm))
      || not (opt_eq (proposed_disksize c config) c.device.disksize)

  -- The pushes of the source, in its order.
  unfoldable pub profile_blocks : ProfileContext F → CompressionConfig F → Bool → List String
  profile_blocks c config observe =
      let device = c.device in
      let change = requires_reinitialization c config in
      let b1 = push_if (not (is_explicit device.ownership)) "ownership_not_explicit" [] in
      let b2 = push_if (is_unknown_provider device.provider) "provider_unknown" b1 in
      let b3 = push_if (not c.provider_matches_snapshot) "provider_mismatch" b2 in
      let b4 = push_if c.rollback_pending "rollback_pending" b3 in
      let b5 = push_if (ltb 0 c.safety_events) "recent_safety_event" b4 in
      let b6 = push_if (not (headroom_sufficient c config)) "insufficient_headroom" b5 in
      let b7 = push_if (is_urgent c.pressure_state) "pressure_state_blocks_reconfiguration" b6 in
      let b8 =
        push_if
          (c.pressure_worsening
            || (is_some_and c.psi_full_avg10 (λ v. fl.le (fl.of_nat 2) v)
                || is_some_and c.swap_in_per_second (λ v. fl.lt (fl.of_nat 0) v)))
          "pressure_trend_unsafe" b7 in
      let b9 = push_if (c.gaming && change) "gaming_blocks_reinitialization" b8 in
      let b10 =
        push_if (change && not config.allow_runtime_reconfigure) "runtime_reconfiguration_disabled"
          b9 in
      let b11 =
        push_if (device.active_swap && (change && not device.writable.reset))
          "active_system_device_protected" b10 in
      push_if observe "observe_mode" b11

  reason_of : ZramProfile → String
  reason_of safe = "preserve_current_configuration_without_strong_evidence"
  reason_of gaming = "select_measured_low_cpu_latency_candidate"
  reason_of capacity = "select_measured_effective_capacity_candidate"

  unfoldable pub confidence_of : ProfileContext F → F
  confidence_of c = elim c.requested [
    | safe ↦ fl.of_nat 1
    | _ ↦ if any (λ item. item.real) c.benchmarks then fl.literal 9 10 else fl.literal 4 10
  ]

  unfoldable pub plan_profile : ProfileContext F → CompressionConfig F → String → ZramProfilePlan F
  unfolding reason_of
  plan_profile c config mode =
      let device = c.device in
      let selected = select_algorithm c config in
      let change = requires_reinitialization c config in
      let observe = str_eq mode "observe" in
      let blocks = sort_dedup (profile_blocks c config observe) in
      record {
        profile = c.requested;
        target_device = device.name;
        current_algorithm = device.current_algorithm;
        selected_algorithm = selected;
        current_disksize = device.disksize;
        proposed_disksize = proposed_disksize c config;
        current_priority = device.priority;
        proposed_priority = device.priority;
        benchmark_evidence = elim selected [
          | none ↦ []
          | some algorithm ↦ filter (λ item. str_eq item.algorithm algorithm) c.benchmarks
        ];
        reason = reason_of c.requested;
        confidence = confidence_of c;
        requires_reinitialization = change;
        requires_swap_migration = device.active_swap && change;
        allowed = is_empty blocks;
        blocked_reasons = blocks;
        dry_run = observe || (config.dry_run || not config.enabled);
        rule_version = profile_rule_version;
      }
