-- ===== src/Tiering/Plan.antt =====
-- The plan of a compressed pool, and the recommendation of a backend
-- (crates/tiering/src/plan.rs). A clamp that would panic is none.
pub mod Pays
pub mod Selection
use nemor.Base.{
  ℕ, ◌+◌, ◌*◌, ◌/◌, ◌<◌, Bool, true, false, not, ◌&&◌, ◌||◌, String, ◌+++◌, Option, none, some,
  List, [], ◌∷◌, ◌==◌, ltb, leb, push_if, is_empty, is_some, is_some_and, unwrap_or, saturating_mul,
  str_eq, if◌then◌else◌,
}
use nemor.Base.Float.{Float}
use nemor.Common.Config.{TieringConfig}
use nemor.Policy.State.{PressureState}
use nemor.Actuator.Plan.{clamp}
use nemor.Tiering.Boot.Types.{StorageProfile}
use nemor.Tiering.Boot.Interface.{SameHostZramBaselineEvidence, SameHostProfileEvidence}
use nemor.Tiering.Boot.Evidence.{matching_same_host_evidence}
use nemor.Tiering.Topology.{StorageClass, StorageTopology, UnixPath, boot_supported}
use nemor.Tiering.Swapfile.{SwapfilePlan}
use nemor.Tiering.Inventory.{ZswapInventory}
use nemor.Tiering.Metrics.{BudgetDecision}

pub data BackendKind : Type 0 where
  zram zswap_storage_backed zswap_nvme external mixed : BackendKind

pub data PoolIntent : Type 0 where
  conservative gaming capacity : PoolIntent

pub record BenchmarkEvidence (F : Type 0) : Type 0 where
  pub backend : BackendKind
  pub real : Bool
  pub cpu_time_ns : ℕ
  pub wall_time_ns : ℕ
  pub compression_ratio : Option F
  pub swap_latency_ns : Option ℕ
  pub backing_write_bytes : Option ℕ
  pub oom : Bool

pub record PoolPlan : Type 0 where
  pub intent : PoolIntent
  pub compressor : Option String
  pub zpool : Option String
  pub max_pool_percent : ℕ
  pub accept_threshold_percent : ℕ
  pub shrinker_enabled : Bool
  pub backing_swapfile : Option UnixPath
  pub rule_version : String
  pub blocked_reasons : List String
  pub requires_reboot : Bool
  pub dry_run : Bool

pub record PoolContext (F : Type 0) : Type 0 where
  pub intent : PoolIntent
  pub inventory : ZswapInventory
  pub swapfile : SwapfilePlan
  pub benchmark : Option (BenchmarkEvidence F)
  pub budget : BudgetDecision F
  pub pressure : PressureState
  pub gaming : Bool

abbrev pub tiering_rule_version : String
tiering_rule_version = "tiering-rules-v5-storage-profile-comparison"

abbrev pub is_severe : PressureState → Bool
is_severe PressureState.critical = true
is_severe PressureState.emergency = true
is_severe _ = false

abbrev pub is_calm : PressureState → Bool
is_calm PressureState.normal = true
is_calm PressureState.watch = true
is_calm _ = false

abbrev pub wants_capacity : PoolIntent → Bool
wants_capacity PoolIntent.capacity = true
wants_capacity _ = false

abbrev pub is_zram : BackendKind → Bool
is_zram BackendKind.zram = true
is_zram _ = false

abbrev kind_rank : BackendKind → ℕ
kind_rank BackendKind.zram = 0
kind_rank BackendKind.zswap_storage_backed = 1
kind_rank BackendKind.zswap_nvme = 2
kind_rank BackendKind.external = 3
kind_rank BackendKind.mixed = 4

module _ {F : Type 0} where
  unfoldable pub pool_blocks : PoolContext F → TieringConfig F → List String
  pool_blocks x config =
      push_if (not config.allow_runtime_reconfigure) "runtime_reconfigure_disabled" (
        push_if (not x.budget.allowed) "write_budget_exceeded" (
          push_if (is_severe x.pressure) "severe_pressure_blocks_global_change" (
            push_if x.gaming "gaming_defers_global_zswap_change" (
              push_if (not x.swapfile.allowed) "backing_swapfile_unavailable"
                (push_if (not x.inventory.supported) "zswap_unsupported" [])))))

  abbrev benchmark_ready : BenchmarkEvidence F → Bool
  benchmark_ready value = value.real && (not value.oom && is_some value.backing_write_bytes)

  unfoldable pub shrinker_enabled : PoolContext F → TieringConfig F → Bool
  shrinker_enabled x config =
      config.allow_shrinker
      && (wants_capacity x.intent
          && (is_some_and x.benchmark benchmark_ready
              && (x.budget.allowed && (not x.gaming && is_calm x.pressure))))

  abbrev pool_plan : PoolContext F → TieringConfig F → Option ℕ → Option PoolPlan
  pool_plan x config none = none
  pool_plan x config (some percent) = some (record {
    intent = x.intent;
    compressor = x.inventory.parameters.compressor;
    zpool = x.inventory.parameters.zpool;
    max_pool_percent = percent;
    accept_threshold_percent = unwrap_or x.inventory.parameters.accept_threshold_percent 90;
    shrinker_enabled = shrinker_enabled x config;
    backing_swapfile = if x.swapfile.allowed then some x.swapfile.path else none;
    rule_version = tiering_rule_version;
    blocked_reasons = pool_blocks x config;
    requires_reboot =
        x.inventory.provider.conflict || not (unwrap_or x.inventory.parameters.enabled false);
    dry_run = config.dry_run;
  })

  unfoldable pub plan_pool : PoolContext F → TieringConfig F → Option PoolPlan
  unfolding pool_blocks shrinker_enabled
  plan_pool x config =
      pool_plan x config (clamp config.zswap_pool_min_percent 100 config.zswap_pool_max_percent)

-- The fields that the recommendation reads: `profile_evidence` and the two identities of the source,
-- which it does not read, are left out.
pub record RecommendationInput (F : Type 0) : Type 0 where
  pub current : BackendKind
  pub gaming : Bool
  pub pressure : PressureState
  pub storage : StorageTopology
  pub zram_benchmark : Option (BenchmarkEvidence F)
  pub zswap_benchmark : Option (BenchmarkEvidence F)
  pub same_host_zram_baseline : Option SameHostZramBaselineEvidence
  pub same_host_profile_evidence : Option SameHostProfileEvidence
  pub budget : BudgetDecision F
  pub safety_events : ℕ

pub record BackendRecommendation : Type 0 where
  pub selected : BackendKind
  pub alternative : BackendKind
  pub confidence : String
  pub reasons : List String
  pub evidence : List String
  pub blocked : Bool
  pub requires_reboot : Bool
  pub rule_version : String
  pub production_activation : Bool

-- `{:?}` of a profile.
abbrev debug_name : StorageProfile → String
debug_name StorageProfile.nvme_ssd = "NvmeSsd"
debug_name StorageProfile.sata_ssd = "SataSsd"
debug_name StorageProfile.sas_ssd = "SasSsd"
debug_name StorageProfile.usb_ssd = "UsbSsd"
debug_name StorageProfile.other_non_rotational = "OtherNonRotational"
debug_name StorageProfile.rotational = "Rotational"
debug_name StorageProfile.composite = "Composite"
debug_name StorageProfile.virtual = "Virtual"
debug_name StorageProfile.ambiguous = "Ambiguous"

abbrev missing_validation : Option StorageProfile → String
missing_validation (some StorageProfile.sata_ssd) = "sata_boot_validation_missing"
missing_validation (some StorageProfile.nvme_ssd) = "nvme_boot_validation_missing"
missing_validation _ = "profile_boot_validation_missing"

module _ {F : Type 0} (fl : Float F) where
  abbrev pub latency_ok : Option ℕ → Option ℕ → Bool
  latency_ok none candidate = false
  latency_ok (some base) none = false
  latency_ok (some base) (some candidate) = leb candidate (saturating_mul base 110 / 100)

  abbrev pub is_benefit : Option F → Option F → Bool
  is_benefit (some base) (some candidate) = fl.lt base candidate
  is_benefit _ _ = false

  abbrev pub compares : BenchmarkEvidence F → BenchmarkEvidence F → Bool
  compares base profile =
      (base.real && (profile.real && (not base.oom && not profile.oom)))
      && (latency_ok base.swap_latency_ns profile.swap_latency_ns
          && (is_benefit base.compression_ratio profile.compression_ratio
              && is_some profile.backing_write_bytes))

  unfoldable pub comparison_policy_passes : RecommendationInput F → Bool
  comparison_policy_passes i =
      is_some_and i.zram_benchmark (λ base. is_some_and i.zswap_benchmark (compares base))

  unfoldable pub baseline_ready : RecommendationInput F → Bool
  unfolding matching_same_host_evidence
  baseline_ready i = is_some_and i.same_host_zram_baseline (λ baseline.
      is_some_and i.same_host_profile_evidence
        (λ evidence. is_some_and i.storage.profile (matching_same_host_evidence baseline evidence)))

  -- The reasons for zram, in the order of the chain; none where the storage is selected.
  unfoldable pub zram_reasons : RecommendationInput F → List String
  unfolding baseline_ready comparison_policy_passes
  zram_reasons i =
      if i.gaming
      then "gaming_preserves_low_write_current_zram" ∷ []
      else if is_severe i.pressure
      then "severe_pressure_blocks_structural_switch" ∷ []
      else if ltb 0 i.safety_events
      then "recent_safety_event" ∷ []
      else if not i.budget.allowed
      then "write_budget_exceeded" ∷ []
      else if not (is_some_and i.storage.profile boot_supported)
      then "storage_profile_unsupported" ∷ []
      else if not (baseline_ready i)
      then "same_host_zram_baseline_missing" ∷ (missing_validation i.storage.profile ∷ [])
      else if not (comparison_policy_passes i)
      then "storage_profile_comparison_missing_or_not_beneficial" ∷ []
      else []

  abbrev is_real : BenchmarkEvidence F → Bool
  is_real value = value.real

  abbrev profile_evidence : Option StorageProfile → List String
  profile_evidence none = []
  profile_evidence (some profile) = ("profile=" +++ debug_name profile) ∷ []

  abbrev recommend : RecommendationInput F → List String → BackendRecommendation
  recommend i [] = record {
    selected = BackendKind.zswap_storage_backed;
    alternative = BackendKind.zram;
    confidence = "measured";
    reasons = "matching_same_host_profile_evidence" ∷ [];
    evidence =
        push_if (is_some_and i.zram_benchmark is_real) "zram_real_baseline"
          (profile_evidence i.storage.profile);
    blocked = false;
    requires_reboot = not (kind_rank BackendKind.zswap_storage_backed == kind_rank i.current);
    rule_version = tiering_rule_version;
    production_activation = false;
  }
  recommend i (reason ∷ reasons) = record {
    selected = BackendKind.zram;
    alternative = BackendKind.zswap_storage_backed;
    confidence = if is_zram i.current then "conservative" else "low";
    reasons = reason ∷ reasons;
    evidence = push_if (is_some_and i.zram_benchmark is_real) "zram_real_baseline" [];
    blocked = not (is_zram i.current);
    requires_reboot = not (kind_rank BackendKind.zram == kind_rank i.current);
    rule_version = tiering_rule_version;
    production_activation = false;
  }

  unfoldable pub recommend_backend : RecommendationInput F → BackendRecommendation
  unfolding zram_reasons
  recommend_backend i = recommend i (zram_reasons i)
