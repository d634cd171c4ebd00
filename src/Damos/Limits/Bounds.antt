-- ===== src/Damos/Limits/Bounds.antt =====
-- What accepted limits bound (crates/damos/src/lib.rs).
use nemor.Base.{
  ℕ, ◌+◌, ◌*◌, ◌≤◌, ◌<◌, ◌≡◌, ◌≢◌, ◌↔◌, true, false, some, arith, ok, is_blank, u64_max,
}
use nemor.Damos.Types.{AccessPattern, DamosQuota, DamosStats}
use nemor.Damos.Limits.{
  DamosPlan, validate_attempt2_bounds, validate_attempt2_stats, hard_byte_ceiling_respected,
  validate_plan, validation_byte_quota,
}

-- A plan that is accepted under two ceilings: it names an owned target that is not the first process,
-- it reclaims only what was not accessed for three windows or more, its time and byte quotas are
-- not both zero and within the ceilings, and its total is at least one interval's bytes.
pub record IsBounded (p : DamosPlan) (max_time_ms max_bytes : ℕ) : Type 0 where
  pub owned : p.target.owned ≡ true
  pub not_first : p.target.pid ≢ 1
  pub keyed : is_blank p.target.stable_key ≡ false
  pub unaccessed : p.pattern_accesses_max ≡ 0
  pub aged : 3 ≤ p.pattern_age_min
  pub age_ordered : p.pattern_age_min ≤ p.pattern_age_max
  pub periodic : 0 < p.apply_interval_us
  pub some_quota : 0 < p.quota.time_ms + p.quota.bytes
  pub time_bounded : p.quota.time_ms ≤ max_time_ms
  pub bytes_bounded : p.quota.bytes ≤ max_bytes
  pub resets : 0 < p.quota.reset_interval_ms
  pub total_enough : p.quota.bytes ≤ p.quota.total_applied_bytes

-- An accepted plan is bounded.
pub validate_plan-IsBounded :
    (p : DamosPlan) (max_time_ms max_bytes : ℕ)
    → validate_plan p max_time_ms max_bytes ≡ ok tt
    → IsBounded p max_time_ms max_bytes
unfolding validate_plan
validate_plan-IsBounded p max_time_ms max_bytes h = ground arith

-- Accepted bounds of a live session, with a deadline that fits 64 bits in microseconds: exactly if
-- the session is not empty and ends before the quota resets, and its snapshots, at least one, fit
-- into the deadline.
pub attempt2_bounds_iff :
    (pattern : AccessPattern) (quota : DamosQuota) (interval deadline snapshots : ℕ)
    → deadline * 1000 ≤ u64_max
    → (validate_attempt2_bounds pattern quota interval deadline snapshots ≡ ok tt) ↔ (
        (0 < deadline)
        × (deadline < quota.reset_interval_ms)
        × (0 < snapshots)
        × (snapshots * interval ≤ deadline * 1000))
unfolding validate_attempt2_bounds
attempt2_bounds_iff pattern quota interval deadline snapshots b =
    ((λ h. ground arith), (λ h. ground arith))

-- If the statistics pass both checks, the bytes applied are within the configured bytes, the hard
-- quota and the bytes tried, and the snapshots within their ceiling.
pub stats_within_ceilings :
    (stats : DamosStats) (snapshots configured reset deadline n applied : ℕ)
    → validate_attempt2_stats stats snapshots ≡ ok tt
    → hard_byte_ceiling_respected stats configured reset deadline ≡ true
    → stats.nr_snapshots ≡ some n
    → stats.sz_applied ≡ some applied
    → (n ≤ snapshots)
      × (applied ≤ configured)
      × (applied ≤ validation_byte_quota)
      × (deadline < reset)
      × (stats.max_nr_snapshots ≡ some snapshots)
unfolding validate_attempt2_stats hard_byte_ceiling_respected
stats_within_ceilings stats snapshots configured reset deadline n applied h k e f = ground arith
