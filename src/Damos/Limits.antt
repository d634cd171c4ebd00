-- ===== src/Damos/Limits.antt =====
-- Quotas, the bounds of a live validation, its statistics, and a plan (crates/damos/src/lib.rs).
pub mod Bounds
use nemor.Base.{
  ℕ, ◌*◌, Bool, true, false, not, ◌&&◌, ◌||◌, String, Option, none, some, ltb, leb, ◌==◌, opt_eq,
  is_blank, is_none_or, is_some_and, saturating_mul, checked_mul, Result, ok, ◌>>=◌, ◌>>◌, reject,
  ok_or,
}
use nemor.Damos.Types.{
  DamosAction, StableTargetIdentity, AccessPattern, DamosQuota, DamosStats, Checked, invalid,
  unsupported,
}
use nemor.Damos.Fence.{AddressFence}

abbrev pub validation_byte_quota : ℕ
validation_byte_quota = 8388608

unfoldable pub validate_quota : DamosQuota → ℕ → ℕ → Checked
validate_quota q max_time_ms max_bytes = do
  reject ((q.time_ms == 0) && (q.bytes == 0)) (invalid "time and byte quotas cannot both be zero")
  reject (ltb max_time_ms q.time_ms || ltb max_bytes q.bytes)
      (invalid "quota exceeds absolute configuration ceiling")
  reject ((q.reset_interval_ms == 0) || ltb q.total_applied_bytes q.bytes)
      (invalid "invalid reset/total quota")

unfoldable pub validate_attempt2_bounds : AccessPattern → DamosQuota → ℕ → ℕ → ℕ → Checked
validate_attempt2_bounds _ quota apply_interval_us live_deadline_ms max_nr_snapshots = do
  reject ((live_deadline_ms == 0) || leb quota.reset_interval_ms live_deadline_ms)
      (invalid "quota reset interval must outlive live session")
  reject (max_nr_snapshots == 0) (invalid "snapshot ceiling must be nonzero")
  snapshot_runtime_us ←
      ok_or (checked_mul max_nr_snapshots apply_interval_us) (invalid "snapshot runtime overflow")
  reject (ltb (saturating_mul live_deadline_ms 1000) snapshot_runtime_us)
      (invalid "snapshot ceiling does not fit live deadline")

unfoldable pub validate_attempt2_stats : DamosStats → ℕ → Checked
validate_attempt2_stats stats max_nr_snapshots = do
  reject (not (opt_eq stats.max_nr_snapshots (some max_nr_snapshots)))
      (unsupported "secondary kernel snapshot ceiling readback")
  reject (is_none_or stats.nr_snapshots (λ value. ltb max_nr_snapshots value))
      (invalid "kernel exceeded or did not report snapshot ceiling")
  reject (is_some_and stats.sz_applied (λ bytes. ltb validation_byte_quota bytes))
      (invalid "applied bytes exceed hard validation byte ceiling")

ceiling_respected : Option ℕ → Option ℕ → ℕ → ℕ → ℕ → Bool
ceiling_respected none applied configured reset deadline = false
ceiling_respected (some tried) none configured reset deadline = false
ceiling_respected (some tried) (some applied) configured reset deadline =
    ltb deadline reset && (leb tried configured && (leb applied tried && leb applied configured))

unfoldable pub hard_byte_ceiling_respected : DamosStats → ℕ → ℕ → ℕ → Bool
unfolding ceiling_respected
hard_byte_ceiling_respected stats configured_bytes reset_interval_ms live_deadline_ms =
    ceiling_respected stats.sz_tried stats.sz_applied configured_bytes reset_interval_ms
      live_deadline_ms

pub record DamosPlan : Type 0 where
  pub decision_id : String
  pub plan_id : String
  pub session_id : String
  pub scheme_id : ℕ
  pub target : StableTargetIdentity
  pub action : DamosAction
  pub pattern_accesses_min : ℕ
  pub pattern_accesses_max : ℕ
  pub pattern_age_min : ℕ
  pub pattern_age_max : ℕ
  pub apply_interval_us : ℕ
  pub quota : DamosQuota
  pub fence : AddressFence
  pub max_nr_snapshots : Option ℕ
  pub dry_run : Bool

unfoldable pub validate_plan : DamosPlan → ℕ → ℕ → Checked
unfolding validate_quota
validate_plan p max_time_ms max_bytes = do
  reject (is_blank p.decision_id || (is_blank p.plan_id || is_blank p.session_id))
      (invalid "decision/plan/session link required")
  reject (not p.target.owned || ((p.target.pid == 1) || is_blank p.target.stable_key))
      (invalid "stable owned target required")
  reject
      (not (p.pattern_accesses_min == 0)
        || (not (p.pattern_accesses_max == 0)
            || (ltb p.pattern_age_min 3
                || (ltb p.pattern_age_max p.pattern_age_min || (p.apply_interval_us == 0)))))
      (invalid "unsafe access pattern")
  validate_quota p.quota max_time_ms max_bytes
