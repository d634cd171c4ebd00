-- ===== src/Examples/Actuator.antt =====
-- The plan of one process, and the store in memory (crates/actuator).
use nemor.Base.{
  ℕ, ◌≤◌, ◌≡◌, ◌≢◌, ◌⊎◌, refl, true, false, String, none, some, [], ◌∷◌, All, arith, ok,
}
use nemor.Base.Integer.{pos}
use nemor.Common.Config.{CgroupsConfig}
use nemor.Common.Validate.{AreBounds}
use nemor.Collector.Samples.{ProcessSample}
use nemor.Classifier.Model.{ProcessCategory, ForegroundState}
use nemor.Actuator.Types.{CgroupPlan, PlanInput, MutationSnapshot, background_group}
use nemor.Actuator.Plan.{percent, memory_low_bytes, memory_high_bytes}
use nemor.Actuator.Plan.Limits.{limits_bounded}
use nemor.Actuator.MemoryStore.{MemorySnapshotStore, contains_key, persist, update, pending}
use nemor.Actuator.MemoryStore.Pending.{IsKept, pending-rolled_back, store-IsKept}

abbrev identity : String
identity = "0123456789abcdef0123456789abcdef0123456789abcdef0123456789abcdef"

abbrev pub config : CgroupsConfig
config = record {
  enabled = true;
  dry_run = false;
  allow_move = true;
  rollback_on_exit = true;
  recover_unclean_session = true;
  foreground_min_percent = 10;
  foreground_max_percent = 60;
  background_high_min_percent = 20;
  background_high_max_percent = 70;
  minimum_headroom_percent = 10;
  allowed_identities = identity ∷ [];
}

abbrev bounds : AreBounds config
bounds = record { foreground = omega arith; background = omega arith; headroom = omega arith }

abbrev sample : ProcessSample ℕ
sample = record {
  timestamp_ns = pos 1;
  pid = 42;
  executable = some "/usr/bin/indexer";
  executable_name = some "indexer";
  parent_pid = some 1;
  process_group_id = none;
  session_id = none;
  tty_nr = none;
  foreground_process_group_id = none;
  start_time_ticks = some 77;
  cgroup_path = none;
  rss_bytes = some 4096;
  pss_bytes = none;
  uss_bytes = none;
  swap_bytes = none;
  minor_faults = none;
  major_faults = none;
  cpu_percent = none;
  io_read_bytes = none;
  io_write_bytes = none;
}

abbrev indexer : PlanInput ℕ
indexer = record {
  process_catalog_id = pos 5;
  identity = identity;
  current_start_time_ticks = some 77;
  source_group = "user.slice";
  classification = record {
    sample = sample;
    executable = "indexer";
    command_signature = "indexer";
    application_name = none;
    category = ProcessCategory.background;
    is_game = false;
    is_critical = false;
    protected = false;
    protected_game = false;
    cold_candidate = false;
    foreground = ForegroundState.background;
    foreground_confidence = 80;
    confidence = 80;
    reasons = [];
  };
  total_ram_bytes = 1000;
  protected_workload_bytes = 300;
}

abbrev pub indexer_plan : CgroupPlan
indexer_plan = record {
  process_catalog_id = pos 5;
  identity = identity;
  pid = 42;
  start_time_ticks = 77;
  source_group = "user.slice";
  target_group = background_group;
  properties = record { memory_low = none; memory_high = some 500 };
  reason = "conservative_background_soft_limit";
  allowed = true;
  block_reasons = [];
  dry_run = false;
}

limits_bounded_example :
    ((low : ℕ) × (memory_low_bytes 1000 300 config ≡ some low)
      × (percent 1000 10 ≤ low)
      × (low ≤ percent 1000 60)
      × (low ≤ 600))
    × ((high : ℕ) × (memory_high_bytes 1000 400 config ≡ some high)
        × (percent 1000 20 ≤ high)
        × (high ≤ percent 1000 70))
limits_bounded_example = limits_bounded 1000 300 400 config bounds

abbrev pub snapshot : MutationSnapshot
snapshot = record {
  id = 0;
  session_id = pos 1;
  timestamp_ns = pos 9;
  process_catalog_id = pos 5;
  identity = identity;
  pid = 42;
  start_time_ticks = 77;
  original_group = "user.slice";
  target_group = background_group;
  original_properties = record { memory_low = none; memory_high = none };
  requested_properties = indexer_plan.properties;
  reason = "conservative_background_soft_limit";
  applied = false;
  verified = false;
  rolled_back = false;
  last_error = none;
}

-- A store with two snapshots, the first of them pending.
abbrev two_stored : MemorySnapshotStore
two_stored = record {
  next_id = 2;
  snapshots =
      (1, record snapshot { id = 1; applied = true }) ∷ (2, record snapshot { id = 2 }) ∷ [];
  managed_groups = [];
}

abbrev undone : MutationSnapshot
undone = record snapshot { id = 1; applied = true; rolled_back = true }

two_stored-IsKept : IsKept two_stored
two_stored-IsKept = (omega arith, omega arith, refl, (omega arith, omega arith, refl, tt))

pending-rolled_back_example :
    All (λ (y : MutationSnapshot). y.id ≢ 1) (pending (update undone two_stored).0)
unfolding update contains_key
pending-rolled_back_example = pending-rolled_back undone two_stored two_stored-IsKept refl refl

store-IsKept_example :
    IsKept (persist undone two_stored).0
    × ((persist undone two_stored).1 ≡ ok 3)
    × (contains_key 3 two_stored.snapshots ≡ false)
    × IsKept (update undone two_stored).0
    × (((update undone two_stored).1 ≡ ok tt) ⊎ ((update undone two_stored).0 ≡ two_stored))
store-IsKept_example = store-IsKept undone two_stored two_stored-IsKept (omega arith)
