-- ===== src/Damos/Eligibility.antt =====
-- `evaluate_eligibility` (crates/damos/src/lib.rs): every reason that speaks against a target is
-- collected, and a target with none is eligible.
pub mod Conditions
use nemor.Base.{
  ℕ, suc, Bool, true, false, not, ◌&&◌, ◌||◌, String, Option, none, some, List, [], ◌∷◌, ltb, ◌==◌,
  is_empty, is_blank, push_if, reverse, if◌then◌else◌,
}
use nemor.Policy.State.{PressureState}
use nemor.Damos.Types.{StableTargetIdentity, ColdObservation}
use PressureState.{normal, watch, stabilizing}

abbrev pub rule_version : String
rule_version = "damos-controlled-reclaim-v1"

pub record EligibilityInput : Type 0 where
  pub identity : Option StableTargetIdentity
  pub identity_fresh : Bool
  pub background : Bool
  pub foreground : Bool
  pub gaming : Bool
  pub critical : Bool
  pub protected : Bool
  pub known_classification : Bool
  pub pressure : PressureState
  pub cold_observations : List ColdObservation
  pub valid_age_evidence : Bool
  pub recent_refault : Bool
  pub blacklisted : Bool
  pub safety_conflict : Bool

pub data PlanDisposition : Type 0 where
  eligible rejected unsupported : PlanDisposition

pub record EligibilityDecision : Type 0 where
  pub disposition : PlanDisposition
  pub reasons : List String
  pub rule_version : String

unfoldable pub identity_known : Option StableTargetIdentity → Bool
identity_known none = false
identity_known (some identity) =
    identity.owned && (not (identity.pid == 1) && not (is_blank identity.stable_key))

-- `matches!(pressure, Normal | Watch | Stabilizing)`.
unfoldable pub no_pressure : PressureState → Bool
no_pressure normal = true
no_pressure watch = true
no_pressure stabilizing = true
no_pressure _ = false

abbrev pub is_cold : ColdObservation → Bool
is_cold item = item.complete && (item.nr_accesses == 0)

-- `iter().rev().take_while(..).count()`.
unfoldable pub count_while : List ColdObservation → ℕ
count_while [] = 0
count_while (item ∷ items) = let rest = suc (count_while items) in if is_cold item then rest else 0

unfoldable pub consecutive : List ColdObservation → ℕ
consecutive items = count_while (reverse items)

-- The pushes of the source, in its order.
unfoldable pub reasons_against : EligibilityInput → List String
reasons_against i =
    let r1 = push_if (not (identity_known i.identity)) "unknown_identity" [] in
    let r2 = push_if (not i.identity_fresh) "stale_identity" r1 in
    let r3 =
      push_if (not i.known_classification || not i.background) "unknown_or_non_background" r2 in
    let r4 = push_if i.foreground "foreground_protected" r3 in
    let r5 = push_if i.gaming "gaming_protected" r4 in
    let r6 = push_if i.critical "critical_protected" r5 in
    let r7 = push_if i.protected "protected_target" r6 in
    let r8 = push_if (no_pressure i.pressure) "not_under_eligible_pressure" r7 in
    let r9 =
      push_if (ltb (consecutive i.cold_observations) 3 || not i.valid_age_evidence)
        "insufficient_cold_evidence" r8 in
    let r10 = push_if (i.recent_refault || i.blacklisted) "early_refault_blacklist" r9 in
    push_if i.safety_conflict "safety_conflict" r10

unfoldable pub evaluate_eligibility : EligibilityInput → EligibilityDecision
evaluate_eligibility i =
    let reasons = reasons_against i in
    record {
      disposition = if is_empty reasons then eligible else rejected;
      reasons = reasons;
      rule_version = rule_version;
    }
