-- ===== src/Examples/Zram.antt =====
-- The replacement of an active device on a small backend (crates/zram): two devices, each of them
-- active swap or not.
use nemor.Base.{
  ℕ, ◌≡◌, ◌⊎◌, refl, Bool, true, false, ◌||◌, String, none, some, [], ◌∷◌, str_eq, if◌then◌else◌,
  ok, err,
}
use nemor.Base.Integer.{pos}
use nemor.Common.Config.{CompressionConfig}
use nemor.Policy.State.{PressureState}
use nemor.Zram.Profile.{ProfileContext}
use nemor.Zram.Types.{
  BenchmarkEvidence, Provider, Ownership, DeviceInventory, ZramProfile, ZramProfilePlan, ZramError,
  backend, is_explicit,
}
use nemor.Zram.Interface.{ZramBackend}
use nemor.Zram.Transaction.{
  MutationPhase, MutationSnapshot, Work, apply_plan, replace_device, apply_after_create, bring_up,
  migrate, leave_original, confirm, ensure_swap, settle, rollback, applied_outcome,
  rolled_back_outcome,
}
use nemor.Zram.Transaction.Swap.{IsReplaced, apply_plan_keeps_swap}
use nemor.Zram.Transaction.Recovery.{IsSettled, apply_plan_failed, rollback_cases}

-- Whether the original, and whether the replacement is active.
abbrev Sim : Type 0
Sim = Bool × Bool

abbrev device : String → Bool → DeviceInventory
device name active = record {
  name = name;
  sysfs_path = name;
  device_path = name;
  active_swap = active;
  priority = none;
  disksize = some 4096;
  initstate = some true;
  current_algorithm = some "lz4";
  available_algorithms = "lz4" ∷ "zstd" ∷ [];
  mm_stat = record {
    orig_data_size = none;
    compr_data_size = none;
    mem_used_total = none;
    mem_limit = none;
    mem_used_max = none;
    same_pages = none;
    pages_compacted = none;
    huge_pages = none;
    huge_pages_since = none;
  };
  io_stat = none;
  block_stat = none;
  bd_stat = none;
  recompression_available = false;
  provider = Provider.manual;
  ownership = Ownership.nemor_owned;
  writable = record {
    hot_add = true;
    hot_remove = true;
    algorithm = true;
    disksize = true;
    reset = true;
  };
}

abbrev set_active : String → Bool → Sim → Sim
set_active name active b = if str_eq name "zram0" then (active, b.1) else (b.0, active)

abbrev sim : ZramBackend Sim
sim = record {
  inspect = λ _. ok (record { available = true; devices = []; unavailable = [] });
  create_isolated_managed_device = λ b. (b, ok (device "zram1" false));
  configure_uninitialized = λ name algorithm b. (b, ok tt);
  initialize = λ name disksize b. (b, ok tt);
  activate = λ name priority b. (set_active name true b, ok tt);
  deactivate = λ name b. (set_active name false b, ok tt);
  verify = λ name b. ok (device name (if str_eq name "zram0" then b.0 else b.1));
  reset_managed_device = λ name b. (b, ok tt);
  remove_managed_device = λ name b. (b, ok tt);
  effective_valid_swap_capacity = λ b. ok (if b.0 || b.1 then 4096 else 0);
  is_owned = λ name _. str_eq name "zram1";
}

abbrev plan : ZramProfilePlan ℕ
plan = record {
  profile = ZramProfile.capacity;
  target_device = "zram0";
  current_algorithm = some "lz4";
  selected_algorithm = some "zstd";
  current_disksize = some 4096;
  proposed_disksize = some 4096;
  current_priority = none;
  proposed_priority = none;
  benchmark_evidence = [];
  reason = "measured";
  confidence = 1;
  requires_reinitialization = true;
  requires_swap_migration = true;
  allowed = true;
  blocked_reasons = [];
  dry_run = false;
  rule_version = "zram-profile-rules-v1";
}

abbrev taken : MutationSnapshot ℕ
taken = record {
  session_id = pos 1;
  timestamp_ns = pos 1;
  provider = Provider.manual;
  original = device "zram0" true;
  replacement_name = none;
  requested_plan = plan;
  phase = MutationPhase.snapshot_taken;
  rollback_pending = true;
  last_error = none;
}

abbrev before : Work Sim ℕ
before = record { backend = (true, false); snapshot = taken }

abbrev after : Work Sim ℕ
after = record {
  backend = (false, true);
  snapshot = record taken {
    replacement_name = some "zram1";
    phase = MutationPhase.verified;
    rollback_pending = false;
  };
}

apply_plan_keeps_swap_example :
    ((plan.dry_run ≡ true) × (after ≡ before))
    ⊎ ((name : String) × (after.snapshot.replacement_name ≡ some name) × IsReplaced sim name after)
unfolding apply_plan replace_device apply_after_create bring_up migrate leave_original confirm
    ensure_swap settle applied_outcome is_explicit
apply_plan_keeps_swap_example =
    apply_plan_keeps_swap sim before {v = after} {o = applied_outcome} refl

-- A backend whose devices cannot be activated.
abbrev broken : ZramBackend Sim
broken = record sim { activate = λ name priority b. (b, err (backend "swapon" "busy")) }

apply_plan_failed_example :
    ((apply_plan broken before).0.snapshot ≡ taken)
    ⊎ IsSettled broken (apply_plan broken before).0.snapshot
unfolding apply_plan replace_device apply_after_create bring_up ensure_swap settle is_explicit
apply_plan_failed_example = apply_plan_failed broken before {e = backend "swapon" "busy"} refl

rollback_cases_example :
    ((e : ZramError) × ((rollback sim before).1 ≡ err e)
      × ((rollback sim before).0.snapshot ≡ taken))
    ⊎ (((rollback sim before).1 ≡ ok rolled_back_outcome)
        × ((rollback sim before).0.snapshot.phase ≡ MutationPhase.rolled_back))
rollback_cases_example = rollback_cases sim before

abbrev evidence : BenchmarkEvidence ℕ
evidence = record {
  algorithm = "zstd";
  median_write_throughput_bytes_sec = some 10;
  median_effective_ratio = some 3;
  median_cpu_time_ns = some 100;
  cpu_overhead_percent = some 2;
  datasets = 3;
  real = true;
}

abbrev context : ProfileContext ℕ
context = record {
  requested = ZramProfile.capacity;
  device = device "zram0" true;
  benchmarks = evidence ∷ [];
  total_ram_bytes = 100000;
  mem_available_bytes = 90000;
  current_used_bytes = 1000;
  pressure_state = PressureState.normal;
  psi_full_avg10 = some 0;
  swap_in_per_second = some 0;
  gaming = false;
  pressure_worsening = false;
  safety_events = 0;
  rollback_pending = false;
  provider_matches_snapshot = true;
}

abbrev compression : CompressionConfig ℕ
compression = record {
  backend = "zram";
  preferred_low_latency = "lz4";
  preferred_capacity = "zstd";
  enabled = true;
  active_profile = "capacity";
  dry_run = false;
  allow_runtime_reconfigure = true;
  allow_persistent_reconfigure = false;
  max_zram_percent_ram = 50;
  safe_headroom_percent = 10;
  benchmark_enabled = true;
  benchmark_max_bytes = 1000;
  max_cpu_overhead_percent = 5;
  min_capacity_gain_percent = 10;
}
