-- ===== src/Actuator/Plan.antt =====
-- The plan of one assignment, and the two memory limits (crates/actuator/src/lib.rs).
-- `u64::clamp` panics where the lower bound exceeds the upper: `none` stands for that panic.
pub mod Limits
pub mod Blocks
use Prim.Native.String.{len}
use nemor.Base.{
  ℕ, ◌-◌, ◌/◌, Bool, true, false, not, ◌&&◌, ◌||◌, String, Option, none, some, List, [], ◌∷◌, ◌++◌,
  is_empty, ltb, ◌==◌, opt_eq, unwrap_or, str_eq, contains_str, push_if, if◌then◌else◌,
  saturating_add, saturating_mul,
}
use nemor.Common.Config.{CgroupsConfig}
use nemor.Classifier.Model.{is_unknown, is_foreground, is_background}
use nemor.Actuator.Types.{
  RequestedProperties, CgroupPlan, PlanInput, foreground_group, background_group,
}

unfoldable pub percent : ℕ → ℕ → ℕ
percent total value = saturating_mul total value / 100

abbrev pub clamp : ℕ → ℕ → ℕ → Option ℕ
clamp low high x =
    if ltb high low then none else some (if ltb x low then low else if ltb high x then high else x)

unfoldable pub memory_low_bytes : ℕ → ℕ → CgroupsConfig → Option ℕ
memory_low_bytes total_ram workload config =
    let low = percent total_ram config.foreground_min_percent in
    let high = percent total_ram config.foreground_max_percent in
    let headroom = percent total_ram config.minimum_headroom_percent in
    clamp low high (saturating_add workload headroom)

unfoldable pub memory_high_bytes : ℕ → ℕ → CgroupsConfig → Option ℕ
memory_high_bytes total_ram protected_low config =
    let low = percent total_ram config.background_high_min_percent in
    let high = percent total_ram config.background_high_max_percent in
    let headroom = percent total_ram config.minimum_headroom_percent in
    clamp low high (total_ram - protected_low - headroom)

infixl 5 ◌>>=◌
abbrev ◌>>=◌ : {A B : Type 0} → Option A → (A → Option B) → Option B
none >>= f = none
some a >>= f = f a

module _ {F : Type 0} where
  unfoldable pub is_protected_target : PlanInput F → Bool
  is_protected_target input =
      let process = input.classification in
      process.is_game
      || (process.is_critical || (process.protected || is_foreground process.foreground))

  abbrev pub expected_start : PlanInput F → ℕ
  expected_start input = unwrap_or input.classification.sample.start_time_ticks 0

  -- The six tests in the source's order, each of which pushes its reason.
  unfoldable pub plan_blocks : PlanInput F → CgroupsConfig → List String
  unfolding is_protected_target
  plan_blocks input config =
      let b1 = push_if (not (len input.identity == 64)) "invalid_identity" [] in
      let b2 =
        push_if (not (contains_str config.allowed_identities input.identity))
          "identity_not_allow_listed" b1 in
      let b3 =
        push_if (not (opt_eq input.current_start_time_ticks (some (expected_start input))))
          "pid_starttime_mismatch" b2 in
      let b4 = push_if (is_unknown input.classification.category) "unknown_process" b3 in
      let b5 =
        push_if
          (not (is_protected_target input) && not (is_background input.classification.foreground))
          "not_confirmed_background" b4 in
      push_if (not config.allow_move) "pid_migration_disabled" b5

  -- The target group, the limits and the reason of the plan.
  target_of : PlanInput F → CgroupsConfig → ℕ → Option (String × RequestedProperties × String)
  unfolding is_protected_target
  target_of input config low =
      if is_protected_target input
      then some (
        foreground_group,
        record { memory_low = some low; memory_high = none },
        "dynamic_foreground_protection",
      )
      else (do
        high ← memory_high_bytes input.total_ram_bytes low config
        some (
          background_group,
          record { memory_low = none; memory_high = some high },
          "conservative_background_soft_limit",
        ))

  unfoldable pub plan : PlanInput F → CgroupsConfig → String → Option CgroupPlan
  unfolding target_of
  plan input config mode = do
    let blocks = plan_blocks input config
    let observe = str_eq mode "observe"
    let dry_run = observe || (config.dry_run || not config.enabled)
    low ← memory_low_bytes input.total_ram_bytes input.protected_workload_bytes config
    target ← target_of input config low
    some (record {
      process_catalog_id = input.process_catalog_id;
      identity = input.identity;
      pid = input.classification.sample.pid;
      start_time_ticks = expected_start input;
      source_group = input.source_group;
      target_group = target.0;
      properties = target.1;
      reason = target.2;
      allowed = is_empty blocks;
      block_reasons = blocks;
      dry_run = dry_run;
    })
