-- ===== src/Actuator/Plan/Limits.antt =====
-- The memory limits of a plan lie in the configured range (crates/actuator/src/lib.rs).
use nemor.Base.{ℕ, ◌*◌, ◌/◌, ◌≤◌, ◌≡◌, some, arith, ltb, if◌then◌else◌, saturating_add, ◌-◌}
use nemor.Common.Config.{CgroupsConfig}
use nemor.Common.Validate.{AreBounds}
use nemor.Actuator.Plan.{clamp, percent, memory_low_bytes, memory_high_bytes}

percent_mono : (total a b : ℕ) → a ≤ b → percent total a ≤ percent total b
unfolding percent
percent_mono total a b h = grind arith

-- A percentage of at most 100 is at most the total.
percent-le : (total a : ℕ) → percent total a ≤ total * a / 100
unfolding percent
percent-le total a = ground arith

clamp_between :
    (low high x : ℕ) → low ≤ high → (y : ℕ) × (clamp low high x ≡ some y) × (low ≤ y) × (y ≤ high)
clamp_between low high x h = (
  if ltb x low then low else if ltb high x then high else x,
  ground arith,
  ground arith,
  ground arith,
)

-- With validated percentages both limits exist, that is `clamp` does not panic, and each lies
-- between its two configured percentages of the memory; the first is then also at most the
-- exact share `foreground_max_percent` of the memory.
pub limits_bounded :
    (total workload protected : ℕ) (config : CgroupsConfig)
    → AreBounds config
    → ((low : ℕ) × (memory_low_bytes total workload config ≡ some low)
        × (percent total config.foreground_min_percent ≤ low)
        × (low ≤ percent total config.foreground_max_percent)
        × (low ≤ total * config.foreground_max_percent / 100))
      × ((high : ℕ) × (memory_high_bytes total protected config ≡ some high)
          × (percent total config.background_high_min_percent ≤ high)
          × (high ≤ percent total config.background_high_max_percent))
unfolding memory_low_bytes memory_high_bytes
limits_bounded total workload protected config v =
    let (low, e, a, b) =
      clamp_between (percent total config.foreground_min_percent)
        (percent total config.foreground_max_percent)
        (saturating_add workload (percent total config.minimum_headroom_percent))
        (percent_mono total _ _ v.foreground) in
    let high =
      clamp_between (percent total config.background_high_min_percent)
        (percent total config.background_high_max_percent)
        (total - protected - percent total config.minimum_headroom_percent)
        (percent_mono total _ _ v.background) in
    (
      (low, e, a, b, omega (arith, percent-le total config.foreground_max_percent)),
      (high.0, high.1, high.2, high.3),
    )
