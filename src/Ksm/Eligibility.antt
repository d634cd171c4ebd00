-- ===== src/Ksm/Eligibility.antt =====
-- Profiles and `evaluate_eligibility` (crates/ksm/src/lib.rs): every reason against a process is
-- collected, and a process with none is eligible.
pub mod Conditions
use nemor.Base.{
  ℕ, Bool, true, false, not, ◌&&◌, ◌||◌, String, Option, none, some, List, [], ltb, is_empty,
  is_none_or, is_some_and, push_if, if◌then◌else◌,
}
use nemor.Base.Float.{Float}
use nemor.Base.Integer.{ℤ, pos, leb_ℤ}
use nemor.Policy.State.{PressureState}
use nemor.Ksm.Types.{KsmProfileKind, StableProcessIdentity, rule_version}
use KsmProfileKind.{vm, browser, electron, synthetic, unknown}
use PressureState.{critical, emergency, stabilizing}

pub record KsmProfile (F : Type 0) : Type 0 where
  pub kind : KsmProfileKind
  pub expected_sharing_suitability : ℕ
  pub foreground_sensitive : Bool
  pub gaming_sensitive : Bool
  pub minimum_stable_observations : ℕ
  pub minimum_mergeable_bytes : ℕ
  pub maximum_scanner_cpu_percent : F
  pub minimum_positive_profit_bytes : ℤ
  pub maximum_cow_events_per_second : ℕ
  pub inefficiency_windows : ℕ
  pub cooldown_seconds : ℕ

unfoldable pub suitability : KsmProfileKind → ℕ
suitability vm = 70
suitability browser = 35
suitability electron = 45
suitability synthetic = 100
suitability unknown = 0

pub record EligibilityInput (F : Type 0) : Type 0 where
  pub identity : Option StableProcessIdentity
  pub identity_fresh : Bool
  pub profile : KsmProfileKind
  pub already_mergeable : Bool
  pub owned_cooperative : Bool
  pub foreground : Bool
  pub gaming : Bool
  pub critical : Bool
  pub protected : Bool
  pub same_security_domain : Bool
  pub pressure : PressureState
  pub stable_observations : ℕ
  pub mergeable_bytes : ℕ
  pub profit_bytes : Option ℤ
  pub cow_events_per_second : Option ℕ
  pub cpu_percent : Option F
  pub cooldown_active : Bool
  pub external_ksm_activity : Bool

pub data PlanDisposition : Type 0 where
  eligible rejected unsupported : PlanDisposition

pub record EligibilityDecision : Type 0 where
  pub disposition : PlanDisposition
  pub reasons : List String
  pub rule_version : String

abbrev pub is_unknown : KsmProfileKind → Bool
is_unknown unknown = true
is_unknown _ = false

-- `matches!(pressure, Critical | Emergency | Stabilizing)`.
abbrev pub is_unsafe_state : PressureState → Bool
is_unsafe_state critical = true
is_unsafe_state emergency = true
is_unsafe_state stabilizing = true
is_unsafe_state _ = false

abbrev pub no_identity : Option StableProcessIdentity → Bool
no_identity none = true
no_identity (some identity) = false

-- `if identity.is_none() { .. } else if !identity_fresh { .. }`.
abbrev pub push_identity : Option StableProcessIdentity → Bool → List String → List String
push_identity identity fresh reasons =
    push_if (not (no_identity identity) && not fresh) "stale_identity"
      (push_if (no_identity identity) "unknown_identity" reasons)

module _ {F : Type 0} (fl : Float F) where
  unfoldable pub profile : KsmProfileKind → KsmProfile F
  unfolding suitability
  profile kind = record {
    kind = kind;
    expected_sharing_suitability = suitability kind;
    foreground_sensitive = true;
    gaming_sensitive = true;
    minimum_stable_observations = 3;
    minimum_mergeable_bytes = 33554432;
    maximum_scanner_cpu_percent = fl.literal 1 1;
    minimum_positive_profit_bytes = pos 4096;
    maximum_cow_events_per_second = 64;
    inefficiency_windows = 3;
    cooldown_seconds = 300;
  }

  -- The pushes of the source, in its order.
  unfoldable pub reasons_against : EligibilityInput F → KsmProfile F → List String
  reasons_against i b =
      let r1 = push_if (is_unknown i.profile) "unknown_profile" [] in
      let r2 = push_identity i.identity i.identity_fresh r1 in
      let r3 = push_if i.foreground "foreground_protected" r2 in
      let r4 = push_if i.gaming "gaming_protected" r3 in
      let r5 = push_if (i.critical || i.protected) "critical_process" r4 in
      let r6 = push_if (not i.same_security_domain) "external_security_domain" r5 in
      let r7 =
        push_if (not i.already_mergeable && not i.owned_cooperative) "cooperation_required" r6 in
      let r8 = push_if i.external_ksm_activity "external_ksm_activity" r7 in
      let r9 =
        push_if (ltb i.stable_observations b.minimum_stable_observations) "insufficient_observation"
          r8 in
      let r10 = push_if (ltb i.mergeable_bytes b.minimum_mergeable_bytes) "ksm_not_mergeable" r9 in
      let r11 = push_if (is_unsafe_state i.pressure) "global_state_not_safe" r10 in
      let r12 = push_if i.cooldown_active "cooldown_active" r11 in
      let r13 =
        push_if (is_some_and i.profit_bytes (λ profit. leb_ℤ profit (pos 0))) "profit_not_positive"
          r12 in
      let r14 =
        push_if
          (is_some_and i.cow_events_per_second (λ rate. ltb b.maximum_cow_events_per_second rate))
          "cow_rate_excessive" r13 in
      push_if (is_some_and i.cpu_percent (λ cpu. fl.lt b.maximum_scanner_cpu_percent cpu))
        "cpu_budget_exceeded" r14

  unfoldable pub evaluate_eligibility : EligibilityInput F → KsmProfile F → EligibilityDecision
  unfolding reasons_against
  evaluate_eligibility i b =
      let reasons = reasons_against i b in
      record {
        disposition =
            if is_empty reasons then PlanDisposition.eligible else PlanDisposition.rejected;
        reasons = reasons;
        rule_version = rule_version;
      }
