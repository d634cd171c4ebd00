-- ===== src/Damos/Eligibility/Conditions.antt =====
-- Exactly when a target is eligible (crates/damos/src/lib.rs).
use mathlib.Core.List.{reverse-append}
use nemor.Base.{
  suc, ◌≤◌, ◌≡◌, ap, ◌↔◌, true, false, not, ◌&&◌, ◌||◌, List, [], ◌∷◌, ◌++◌, arith, is_empty,
  is_empty-push_if, if◌then◌else◌, ltb,
}
use nemor.Damos.Types.{ColdObservation}
use nemor.Damos.Eligibility.{
  EligibilityInput, eligible, identity_known, no_pressure, is_cold, count_while, consecutive,
  reasons_against, evaluate_eligibility,
}

-- The newest observation extends the cold windows in a row, or ends them.
pub consecutive-append :
    (items : List ColdObservation) (item : ColdObservation)
    → consecutive (items ++ (item ∷ [])) ≡ (if is_cold item then suc (consecutive items) else 0)
unfolding consecutive count_while
consecutive-append items item = ap count_while (reverse-append items (item ∷ []))

no_reasons :
    (i : EligibilityInput)
    → is_empty (reasons_against i) ≡ (
        not i.safety_conflict
        && (not (i.recent_refault || i.blacklisted)
            && (not (ltb (consecutive i.cold_observations) 3 || not i.valid_age_evidence)
                && (not (no_pressure i.pressure)
                    && (not i.protected
                        && (not i.critical
                            && (not i.gaming
                                && (not i.foreground
                                    && (not (not i.known_classification || not i.background)
                                        && (not (not i.identity_fresh)
                                            && (not (not (identity_known i.identity))
                                                && true)))))))))))
unfolding reasons_against
no_reasons i = simp is_empty-push_if

-- What an eligible target has to meet.
pub record Meets (i : EligibilityInput) : Type 0 where
  pub known : identity_known i.identity ≡ true
  pub fresh : i.identity_fresh ≡ true
  pub classified : i.known_classification ≡ true
  pub in_background : i.background ≡ true
  pub not_foreground : i.foreground ≡ false
  pub not_gaming : i.gaming ≡ false
  pub not_critical : i.critical ≡ false
  pub not_protected : i.protected ≡ false
  pub under_pressure : no_pressure i.pressure ≡ false
  pub cold : 3 ≤ consecutive i.cold_observations
  pub aged : i.valid_age_evidence ≡ true
  pub no_refault : i.recent_refault ≡ false
  pub not_blacklisted : i.blacklisted ≡ false
  pub no_conflict : i.safety_conflict ≡ false

-- A target is eligible exactly if it meets all fourteen conditions.
pub eligible_iff :
    (i : EligibilityInput) → ((evaluate_eligibility i).disposition ≡ eligible) ↔ Meets i
unfolding evaluate_eligibility
eligible_iff i = ((λ h. ground (arith, no_reasons i)), (λ m. ground (arith, no_reasons i)))
