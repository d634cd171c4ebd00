-- ===== src/Examples/Recommendation.antt =====
-- The recommendation of a backend on small inputs (crates/tiering/src/plan.rs).
use nemor.Base.{ℕ, ◌≡◌, refl, true, false, String, some, [], ◌⊎◌}
use nemor.Base.Float.{whole}
use nemor.Policy.State.{PressureState}
use nemor.Tiering.Boot.Types.{StorageProfile}
use nemor.Tiering.Boot.Interface.{SameHostZramBaselineEvidence, SameHostProfileEvidence}
use nemor.Tiering.Boot.Equality.{is_sha256}
use nemor.Tiering.Metrics.{BudgetDecision}
use nemor.Tiering.Plan.{
  BackendKind, BenchmarkEvidence, RecommendationInput, is_severe, recommend_backend,
}
use nemor.Tiering.Plan.Pays.{HasEvidence, HasGain}
use nemor.Tiering.Plan.Selection.{recommend_backend-measured}
use nemor.Examples.Swapfile.{storage}

abbrev hash : String
hash = "0123456789abcdef0123456789abcdef0123456789abcdef0123456789abcdef"

abbrev baseline : SameHostZramBaselineEvidence
baseline = record {
  schema = "tiering-zram-baseline-v4";
  validation_id = "x";
  source_commit = "x";
  source_state_sha256 = "x";
  environment_sha256 = "x";
  topology_sha256 = "x";
  workload_sha256 = "x";
  real = true;
  oom = false;
  safety_failure = false;
  cleanup_passed = true;
  final_restore_passed = true;
  archive_sha256 = hash;
  raw_evidence_sha256 = hash;
  workload_protocol = "tiering-bounded-workload-v3";
}

abbrev evidence : SameHostProfileEvidence
evidence = record {
  schema = "tiering-profile-benchmark-v6";
  validation_id = "x";
  profile = StorageProfile.nvme_ssd;
  source_commit = "x";
  source_state_sha256 = "x";
  environment_sha256 = "x";
  topology_sha256 = "x";
  workload_sha256 = "x";
  real = true;
  oom = false;
  safety_failure = false;
  cleanup_passed = true;
  final_restore_passed = true;
  write_budget_passed = true;
  backing_write_bytes = some 1;
  latency_ns = some 1;
  archive_sha256 = hash;
  raw_evidence_sha256 = hash;
  workload_protocol = "tiering-bounded-workload-v3";
  backing_write_confidence = "bounded-physical-device-attributed";
}

abbrev measured : ℕ → ℕ → BenchmarkEvidence ℕ
measured ratio latency = record {
  backend = BackendKind.zram;
  real = true;
  cpu_time_ns = 0;
  wall_time_ns = 0;
  compression_ratio = some ratio;
  swap_latency_ns = some latency;
  backing_write_bytes = some 4096;
  oom = false;
}

abbrev budget : BudgetDecision ℕ
budget = record {
  allowed = true;
  instantaneous_mib_per_second = 0;
  rolling_minute_mib_per_second = 0;
  rolling_hour_gib = 0;
  daily_gib = 0;
  annual_tb = 0;
  reasons = [];
}

abbrev input : RecommendationInput ℕ
input = record {
  current = BackendKind.zram;
  gaming = false;
  pressure = PressureState.normal;
  storage = storage;
  zram_benchmark = some (measured 2 100);
  zswap_benchmark = some (measured 3 105);
  same_host_zram_baseline = some baseline;
  same_host_profile_evidence = some evidence;
  budget = budget;
  safety_events = 0;
}

recommend_backend-measured_example :
    (input.gaming ≡ false)
    × (is_severe input.pressure ≡ false)
    × (input.safety_events ≡ 0)
    × (input.budget.allowed ≡ true)
    × ((profile : StorageProfile) × (input.storage.profile ≡ some profile)
        × ((profile ≡ StorageProfile.nvme_ssd) ⊎ (profile ≡ StorageProfile.sata_ssd)))
    × HasEvidence input
    × HasGain whole input
unfolding recommend_backend is_sha256
recommend_backend-measured_example = recommend_backend-measured whole input refl
