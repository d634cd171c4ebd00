-- ===== src/Actuator/Plan/Blocks.antt =====
-- When a plan exists, when it is allowed, and what it asks for (crates/actuator/src/lib.rs).
use Prim.Native.String.{len}
use nemor.Base.{
  ℕ, ◌≡◌, ◌↔◌, ◌⊎◌, Bool, true, false, ◌||◌, String, Option, some, arith, is_some, contains_str,
  str_eq, not, ◌&&◌, opt_eq, opt_eq_iff, is_empty, is_empty-push_if, ◌==◌, if◌then◌else◌,
}
use nemor.Common.Config.{CgroupsConfig}
use nemor.Common.Validate.{AreBounds}
use nemor.Classifier.Model.{is_unknown, is_background}
use nemor.Actuator.Types.{CgroupPlan, PlanInput, foreground_group, background_group}
use nemor.Actuator.Plan.{is_protected_target, expected_start, plan_blocks, plan}
use nemor.Actuator.Plan.Limits.{limits_bounded}

all_hold :
    (n : ℕ) (listed : Bool) (start expected : Option ℕ) (unknown target background move : Bool)
    → ((not (not move)
          && (not (not target && not background)
              && (not unknown
                  && (not (not (opt_eq start expected))
                      && (not (not listed) && (not (not (n == 64)) && true))))))
        ≡ true)
      ↔ ((n ≡ 64)
          × (listed ≡ true)
          × (start ≡ expected)
          × (unknown ≡ false)
          × ((target ≡ true) ⊎ (background ≡ true))
          × (move ≡ true))
all_hold n listed start expected unknown target background move = (
  (λ h. ground (arith, opt_eq_iff start expected)),
  (λ h. ground (arith, opt_eq_iff start expected)),
)

module _ {F : Type 0} where
  -- With validated percentages the plan exists.
  pub plan_total :
      (input : PlanInput F) (config : CgroupsConfig) (mode : String)
      → AreBounds config
      → is_some (plan input config mode) ≡ true
  unfolding plan
  plan_total input config mode v =
      let total = input.total_ram_bytes in
      let bounds = λ (low : ℕ). limits_bounded total input.protected_workload_bytes low config v in
      let (low, e, _, _, _) = (bounds 0).0 in
      let (high, f, _, _) = (bounds low).1 in rw (e, f) (ground arith)

  no_blocks :
      (input : PlanInput F) (config : CgroupsConfig)
      → is_empty (plan_blocks input config) ≡ (
          not (not config.allow_move)
          && (not (
                not (is_protected_target input)
                && not (is_background input.classification.foreground))
              && (not (is_unknown input.classification.category)
                  && (not
                        (not (opt_eq input.current_start_time_ticks (some (expected_start input))))
                      && (not (not (contains_str config.allowed_identities input.identity))
                          && (not (not (len input.identity == 64)) && true))))))
  unfolding plan_blocks
  no_blocks input config = simp is_empty-push_if

  no_blocks_iff :
      (input : PlanInput F) (config : CgroupsConfig)
      → (is_empty (plan_blocks input config) ≡ true) ↔ (
          (len input.identity ≡ 64)
          × (contains_str config.allowed_identities input.identity ≡ true)
          × (input.current_start_time_ticks ≡ some (expected_start input))
          × (is_unknown input.classification.category ≡ false)
          × ((is_protected_target input ≡ true)
              ⊎ (is_background input.classification.foreground ≡ true))
          × (config.allow_move ≡ true))
  no_blocks_iff input config = rw (no_blocks input config) (
      all_hold (len input.identity) (contains_str config.allowed_identities input.identity)
        input.current_start_time_ticks (some (expected_start input))
        (is_unknown input.classification.category) (is_protected_target input)
        (is_background input.classification.foreground) config.allow_move)

  plan_fields :
      (input : PlanInput F) (config : CgroupsConfig) (mode : String) {p : CgroupPlan}
      → plan input config mode ≡ some p
      → (is_empty (plan_blocks input config) ≡ p.allowed)
        × (expected_start input ≡ p.start_time_ticks)
  unfolding plan
  plan_fields input config mode e = ground arith

  -- Exactly when a plan is allowed: the identity is a listed one of 64 bytes, the process still has
  -- the sampled start time, its category is known, it is a protected target or confirmed to be in
  -- the background, and moves are enabled.
  pub plan_allowed_iff :
      (input : PlanInput F) (config : CgroupsConfig) (mode : String) {p : CgroupPlan}
      → plan input config mode ≡ some p
      → (p.allowed ≡ true) ↔ (
          (len input.identity ≡ 64)
          × (contains_str config.allowed_identities input.identity ≡ true)
          × (input.current_start_time_ticks ≡ some p.start_time_ticks)
          × (is_unknown input.classification.category ≡ false)
          × ((is_protected_target input ≡ true)
              ⊎ (is_background input.classification.foreground ≡ true))
          × (config.allow_move ≡ true))
  plan_allowed_iff input config mode e =
      let (a, t) = plan_fields input config mode e in rw (← a, ← t) (no_blocks_iff input config)

  -- A protected target goes to the foreground group with a lower limit only, any other process to
  -- the background group with an upper limit only; observe mode, `dry_run` or a disabled section
  -- make the plan dry, and nothing else does.
  pub plan_target :
      (input : PlanInput F) (config : CgroupsConfig) (mode : String) {p : CgroupPlan}
      → plan input config mode ≡ some p
      → (p.target_group
          ≡ (if is_protected_target input then foreground_group else background_group))
        × (is_some p.properties.memory_low ≡ is_protected_target input)
        × (is_some p.properties.memory_high ≡ not (is_protected_target input))
        × (p.dry_run ≡ (str_eq mode "observe" || (config.dry_run || not config.enabled)))
  unfolding plan
  plan_target input config mode e = ground arith
