-- ===== src/Damos/Types.antt =====
-- Errors, identities, patterns, quotas and statistics (crates/damos/src/lib.rs). Times of 128 bits
-- and sizes of 64 bits are natural numbers.
use nemor.Base.{
  ℕ, Bool, true, false, ◌||◌, not, String, ◌+++◌, Option, none, some, List, [], ◌∷◌, str_eq,
  contains_str, if◌then◌else◌, Result, ok, ◌>>◌, reject, u64_max,
}
use nemor.Damon.Ranges.{AddressRange}

pub data DamosError : Type 0 where
  invalid unsupported : String → DamosError

abbrev pub Checked : Type 0
Checked = Result DamosError (Unit {0})

pub data DamosAction : Type 0 where
  stat pageout : DamosAction

pub record DamosCapability : Type 0 where
  pub supported : Bool
  pub vaddr : Option Bool
  pub actions : List String
  pub scheme_fields : List (String × Bool)
  pub quota_fields : List (String × Bool)
  pub filter_types : List String
  pub stats_fields : List (String × Bool)
  pub address_fence_supported : Bool
  pub filter_allow_supported : Bool
  pub max_nr_snapshots_supported : Bool
  pub external_session_conflict : Bool
  pub special_module_conflict : Bool
  pub notes : List String

-- `map.get(key).copied().unwrap_or(false)`.
flag : String → List (String × Bool) → Bool
flag key [] = false
flag key ((k, v) ∷ rest) = if str_eq k key then v else flag key rest

check_quota_fields : List String → List (String × Bool) → Checked
unfolding flag
check_quota_fields [] fields = ok tt
check_quota_fields (f ∷ fs) fields =
    reject (not (flag f fields)) (unsupported ("quota." +++ f)) >> check_quota_fields fs fields

is_true : Option Bool → Bool
is_true (some true) = true
is_true (some false) = false
is_true none = false

unfoldable pub live_pageout_ready : DamosCapability → Checked
unfolding check_quota_fields is_true
live_pageout_ready c = do
  reject (not c.supported || (not (is_true c.vaddr) || not (contains_str c.actions "pageout")))
      (unsupported "vaddr pageout")
  check_quota_fields ("ms" ∷ "bytes" ∷ "reset_interval_ms" ∷ []) c.quota_fields
  reject (not c.address_fence_supported) (unsupported "core addr filter")
  reject (c.external_session_conflict || c.special_module_conflict)
      (unsupported "external DAMON conflict")

pub record StableTargetIdentity : Type 0 where
  pub pid : ℕ
  pub start_ticks : ℕ
  pub stable_key : String
  pub owned : Bool

pub record ColdObservation : Type 0 where
  pub complete : Bool
  pub nr_accesses : ℕ
  pub age : ℕ
  pub range : AddressRange

pub record DamosQuota : Type 0 where
  pub time_ms : ℕ
  pub bytes : ℕ
  pub reset_interval_ms : ℕ
  pub total_applied_bytes : ℕ

pub record InclusiveRange : Type 0 where
  pub min : ℕ
  pub max : ℕ

pub record AccessPattern : Type 0 where
  pub size : InclusiveRange
  pub nr_accesses : InclusiveRange
  pub age : InclusiveRange

unfoldable pub validation_cold : AccessPattern
validation_cold = record {
  size = record { min = 0; max = u64_max };
  nr_accesses = record { min = 0; max = 0 };
  age = record { min = 3; max = u64_max };
}

unfoldable pub configured_age_min : AccessPattern → ℕ
configured_age_min p = p.age.min

pub record TriedRegionSample : Type 0 where
  pub range : AddressRange
  pub size : ℕ
  pub nr_accesses : Option ℕ
  pub age : Option ℕ
  pub sz_filter_passed : Option ℕ

pub record DamosStats : Type 0 where
  pub effective_quota_bytes : Option ℕ
  pub nr_tried : Option ℕ
  pub sz_tried : Option ℕ
  pub nr_applied : Option ℕ
  pub sz_applied : Option ℕ
  pub sz_ops_filter_passed : Option ℕ
  pub qt_exceeds : Option ℕ
  pub nr_snapshots : Option ℕ
  pub max_nr_snapshots : Option ℕ
  pub tried_regions : List AddressRange
  pub tried_region_samples : List TriedRegionSample
  pub tried_regions_total_bytes : Option ℕ
  pub first_tried_snapshot_index : Option ℕ
  pub first_tried_region_age : Option ℕ
  pub first_tried_timestamp_ns : Option ℕ
  pub effective_quota_raw : Option String
  pub effective_quota_interpretation : Option String

pub record DamosBeforeApplyEvent : Type 0 where
  pub timestamp_ns : ℕ
  pub context_idx : ℕ
  pub scheme_idx : ℕ
  pub target_idx : ℕ
  pub nr_regions : ℕ
  pub range : AddressRange
  pub size : ℕ
  pub nr_accesses : ℕ
  pub age : ℕ
