-- ===== src/Examples/Reclaim.antt =====
-- A target of reclaim, its plan, and what was observed of it (crates/damos).
use nemor.Base.{ℕ, ◌+◌, ◌-◌, ◌*◌, ◌/◌, ◌≤◌, ◌<◌, ◌≡◌, refl, true, false, none, some, [], ◌∷◌, arith}
use nemor.Policy.State.{PressureState}
use nemor.Damos.Types.{StableTargetIdentity, ColdObservation, DamosQuota, DamosStats, pageout}
use nemor.Damos.Eligibility.{EligibilityInput}
use nemor.Damos.Limits.{DamosPlan, validate_plan, validate_quota}
use nemor.Damos.Limits.Bounds.{IsBounded, validate_plan-IsBounded}
use nemor.Damos.Residency.{RangeResidencySnapshot, validate_snapshot}
use nemor.Damos.Residency.Accounting.{snapshot_accounts}
use nemor.Damos.Refault.{RefaultEvidence, BlacklistRecord}
use nemor.Damos.Recovery.{OwnedSession}
use nemor.Examples.Damos.{cold, fence}

abbrev target : StableTargetIdentity
target = record { pid = 42; start_ticks = 77; stable_key = "42:77"; owned = true }

abbrev seen : ColdObservation
seen = record { complete = true; nr_accesses = 0; age = 5; range = cold }

abbrev eligible_input : EligibilityInput
eligible_input = record {
  identity = some target;
  identity_fresh = true;
  background = true;
  foreground = false;
  gaming = false;
  critical = false;
  protected = false;
  known_classification = true;
  pressure = PressureState.pressure;
  cold_observations = seen ∷ seen ∷ seen ∷ [];
  valid_age_evidence = true;
  recent_refault = false;
  blacklisted = false;
  safety_conflict = false;
}

abbrev quota : DamosQuota
quota = record {
  time_ms = 10;
  bytes = 8388608;
  reset_interval_ms = 60000;
  total_applied_bytes = 8388608;
}

abbrev damos_plan : DamosPlan
damos_plan = record {
  decision_id = "d";
  plan_id = "p";
  session_id = "s";
  scheme_id = 0;
  target = target;
  action = pageout;
  pattern_accesses_min = 0;
  pattern_accesses_max = 0;
  pattern_age_min = 3;
  pattern_age_max = 100;
  apply_interval_us = 1000000;
  quota = quota;
  fence = fence;
  max_nr_snapshots = some 5;
  dry_run = false;
}

validate_plan-IsBounded_example : IsBounded damos_plan 100 16777216
unfolding validate_plan validate_quota
validate_plan-IsBounded_example = validate_plan-IsBounded damos_plan 100 16777216 refl

abbrev stats : DamosStats
stats = record {
  effective_quota_bytes = none;
  nr_tried = some 1;
  sz_tried = some 12288;
  nr_applied = some 1;
  sz_applied = some 8192;
  sz_ops_filter_passed = none;
  qt_exceeds = none;
  nr_snapshots = some 4;
  max_nr_snapshots = some 5;
  tried_regions = [];
  tried_region_samples = [];
  tried_regions_total_bytes = none;
  first_tried_snapshot_index = none;
  first_tried_region_age = none;
  first_tried_timestamp_ns = none;
  effective_quota_raw = none;
  effective_quota_interpretation = none;
}

abbrev residency : ℕ → ℕ → RangeResidencySnapshot
residency present swapped = record {
  range_start = 65536;
  range_end = 131072;
  range_size_bytes = 65536;
  page_size = 4096;
  total_pages = 16;
  present_pages = present;
  present_bytes = present * 4096;
  swapped_pages = swapped;
  swapped_bytes = swapped * 4096;
  not_present_not_swapped_pages = 16 - present - swapped;
  read_errors = 0;
  timestamp_ns = 1;
  source = "proc_pagemap";
}

snapshot_accounts_example :
    (65536 < 131072) × (10 + 4 + 2 ≡ (131072 - 65536) / 4096) × (40960 + 16384 ≤ 131072 - 65536)
unfolding validate_snapshot
snapshot_accounts_example = snapshot_accounts (residency 10 4) refl (omega arith) (omega arith)

abbrev refault : RefaultEvidence
refault = record {
  action_id = "a";
  target_key = "42:77";
  region_signature = "cold";
  applied_bytes = 8192;
  action_timestamp_ns = 100;
  first_access_timestamp_ns = some 150;
  rss_or_swap_evidence = true;
  content_valid = true;
}

abbrev listed : BlacklistRecord
listed = record {
  key = "42:77:cold";
  reason = "early_refault_blacklist";
  created_at_ns = 200;
  expires_at_ns = 900;
  source_action_id = "a";
  evidence = refault;
}

abbrev session : OwnedSession
session = record {
  session_id = "nemor-validation-1";
  target = target;
  kdamond_index = 0;
  scheme_id = 0;
  state_on = true;
  interrupted = false;
}
