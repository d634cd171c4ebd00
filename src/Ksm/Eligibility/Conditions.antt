-- ===== src/Ksm/Eligibility/Conditions.antt =====
-- Exactly when a process may take part in KSM (crates/ksm/src/lib.rs).
use nemor.Base.{
  ◌≤◌, ◌≡◌, refl, ap, sym, ◌∙◌, ◌↔◌, Bool, true, false, not, ◌&&◌, ◌||◌, arith, is_empty,
  is_empty-push_if, if◌then◌else◌, is_some_and, ltb, ℕ,
}
use nemor.Base.Float.{Float}
use nemor.Base.Integer.{pos, leb_ℤ}
use nemor.Ksm.Eligibility.{
  EligibilityInput, KsmProfile, PlanDisposition, is_unknown, is_unsafe_state, no_identity,
  reasons_against, evaluate_eligibility,
}

all_hold :
    (b1 b2 b3 b4 b5 b6 b7 b8 b9 b10 b11 b12 b13 b14 b15 b16 : Bool)
    → ((not b1
          && (not b2
              && (not b3
                  && (not b4
                      && (not b5
                          && (not b6
                              && (not b7
                                  && (not b8
                                      && (not b9
                                          && (not b10
                                              && (not b11
                                                  && (not b12
                                                      && (not b13
                                                          && (not b14
                                                            && (not b15
                                                            && (not b16 && true))))))))))))))))
        ≡ true)
      ↔ ((b1 ≡ false)
          × (b2 ≡ false)
          × (b3 ≡ false)
          × (b4 ≡ false)
          × (b5 ≡ false)
          × (b6 ≡ false)
          × (b7 ≡ false)
          × (b8 ≡ false)
          × (b9 ≡ false)
          × (b10 ≡ false)
          × (b11 ≡ false)
          × (b12 ≡ false)
          × (b13 ≡ false)
          × (b14 ≡ false)
          × (b15 ≡ false)
          × (b16 ≡ false))
all_hold b1 b2 b3 b4 b5 b6 b7 b8 b9 b10 b11 b12 b13 b14 b15 b16 =
    ((λ h. ground arith), (λ h. ground arith))

disposition_of : Bool → PlanDisposition
disposition_of b = if b then PlanDisposition.eligible else PlanDisposition.rejected

eligible_test :
    (b : Bool)
    → (if b then PlanDisposition.eligible else PlanDisposition.rejected) ≡ PlanDisposition.eligible
    → b ≡ true
eligible_test true h = refl
eligible_test false h = ground arith

ltb-false_iff : (m n : ℕ) → (ltb m n ≡ false) ↔ (n ≤ m)
ltb-false_iff m n = ((λ h. ground arith), (λ h. ground arith))

neither_iff : (a b : Bool) → ((not a && not b) ≡ false) ↔ ((a || b) ≡ true)
neither_iff a b = ((λ h. ground arith), (λ h. ground arith))

both_false_iff : (a b : Bool) → ((a ≡ false) × (b ≡ false)) ↔ ((a || b) ≡ false)
both_false_iff a b = ((λ h. ground arith), (λ h. ground arith))

not-false_iff : (a : Bool) → (not a ≡ false) ↔ (a ≡ true)
not-false_iff a = ((λ h. ground arith), (λ h. ground arith))

fresh_iff : (a b : Bool) → a ≡ false → ((not a && not b) ≡ false) ↔ (b ≡ true)
fresh_iff a b h = ((λ k. ground arith), (λ k. ground arith))

module _ {F : Type 0} (fl : Float F) where
  -- What an eligible process has to meet. A measurement that is missing is no objection.
  pub record Meets (i : EligibilityInput F) (b : KsmProfile F) : Type 0 where
    pub known : is_unknown i.profile ≡ false
    pub identified : no_identity i.identity ≡ false
    pub fresh : i.identity_fresh ≡ true
    pub in_background : (i.foreground || i.gaming) ≡ false
    pub unprotected : (i.critical || i.protected) ≡ false
    pub same_domain : i.same_security_domain ≡ true
    pub cooperative : (i.already_mergeable || i.owned_cooperative) ≡ true
    pub no_external : i.external_ksm_activity ≡ false
    pub observed : b.minimum_stable_observations ≤ i.stable_observations
    pub mergeable : b.minimum_mergeable_bytes ≤ i.mergeable_bytes
    pub calm : is_unsafe_state i.pressure ≡ false
    pub no_cooldown : i.cooldown_active ≡ false
    pub profitable : is_some_and i.profit_bytes (λ profit. leb_ℤ profit (pos 0)) ≡ false
    pub few_copies :
        is_some_and i.cow_events_per_second (λ rate. ltb b.maximum_cow_events_per_second rate)
        ≡ false
    pub cheap : is_some_and i.cpu_percent (λ cpu. fl.lt b.maximum_scanner_cpu_percent cpu) ≡ false

  no_reasons :
      (i : EligibilityInput F) (b : KsmProfile F)
      → is_empty (reasons_against fl i b) ≡ (
          not (is_some_and i.cpu_percent (λ cpu. fl.lt b.maximum_scanner_cpu_percent cpu))
          && (not (
                is_some_and i.cow_events_per_second
                  (λ rate. ltb b.maximum_cow_events_per_second rate))
              && (not (is_some_and i.profit_bytes (λ profit. leb_ℤ profit (pos 0)))
                  && (not (i.cooldown_active)
                      && (not (is_unsafe_state i.pressure)
                          && (not (ltb i.mergeable_bytes b.minimum_mergeable_bytes)
                              && (not (ltb i.stable_observations b.minimum_stable_observations)
                                  && (not (i.external_ksm_activity)
                                      && (not (not i.already_mergeable && not i.owned_cooperative)
                                          && (not (not i.same_security_domain)
                                              && (not (i.critical || i.protected)
                                                  && (not (i.gaming)
                                                      && (not (i.foreground)
                                                          && (not (
                                                            not (no_identity i.identity)
                                                            && not i.identity_fresh)
                                                            && (not (no_identity i.identity)
                                                            && (not (is_unknown i.profile)
                                                            && true))))))))))))))))
  unfolding reasons_against
  no_reasons i b = simp is_empty-push_if

  abbrev Conditions : EligibilityInput F → KsmProfile F → Type 0
  Conditions i b =
      ((is_some_and i.cpu_percent (λ cpu. fl.lt b.maximum_scanner_cpu_percent cpu)) ≡ false)
      × ((is_some_and i.cow_events_per_second (λ rate. ltb b.maximum_cow_events_per_second rate))
          ≡ false)
      × ((is_some_and i.profit_bytes (λ profit. leb_ℤ profit (pos 0))) ≡ false)
      × ((i.cooldown_active) ≡ false)
      × ((is_unsafe_state i.pressure) ≡ false)
      × ((ltb i.mergeable_bytes b.minimum_mergeable_bytes) ≡ false)
      × ((ltb i.stable_observations b.minimum_stable_observations) ≡ false)
      × ((i.external_ksm_activity) ≡ false)
      × ((not i.already_mergeable && not i.owned_cooperative) ≡ false)
      × ((not i.same_security_domain) ≡ false)
      × ((i.critical || i.protected) ≡ false)
      × ((i.gaming) ≡ false)
      × ((i.foreground) ≡ false)
      × ((not (no_identity i.identity) && not i.identity_fresh) ≡ false)
      × ((no_identity i.identity) ≡ false)
      × ((is_unknown i.profile) ≡ false)

  Conditions-Meets : {i : EligibilityInput F} {b : KsmProfile F} → Conditions i b → Meets i b
  Conditions-Meets {i} {b} c = record {
    known = c.15;
    identified = c.14;
    fresh = (fresh_iff (no_identity i.identity) i.identity_fresh c.14).0 c.13;
    in_background = (both_false_iff i.foreground i.gaming).0 (c.12, c.11);
    unprotected = c.10;
    same_domain = (not-false_iff i.same_security_domain).0 c.9;
    cooperative = (neither_iff i.already_mergeable i.owned_cooperative).0 c.8;
    no_external = c.7;
    observed = (ltb-false_iff i.stable_observations b.minimum_stable_observations).0 c.6;
    mergeable = (ltb-false_iff i.mergeable_bytes b.minimum_mergeable_bytes).0 c.5;
    calm = c.4;
    no_cooldown = c.3;
    profitable = c.2;
    few_copies = c.1;
    cheap = c.0;
  }

  Meets-Conditions : {i : EligibilityInput F} {b : KsmProfile F} → Meets i b → Conditions i b
  Meets-Conditions {i} {b} m =
      let quiet = (both_false_iff i.foreground i.gaming).1 m.in_background in
      (
        m.cheap,
        m.few_copies,
        m.profitable,
        m.no_cooldown,
        m.calm,
        (ltb-false_iff i.mergeable_bytes b.minimum_mergeable_bytes).1 m.mergeable,
        (ltb-false_iff i.stable_observations b.minimum_stable_observations).1 m.observed,
        m.no_external,
        (neither_iff i.already_mergeable i.owned_cooperative).1 m.cooperative,
        (not-false_iff i.same_security_domain).1 m.same_domain,
        m.unprotected,
        quiet.1,
        quiet.0,
        (fresh_iff (no_identity i.identity) i.identity_fresh m.identified).1 m.fresh,
        m.identified,
        m.known,
      )

  -- A process is eligible exactly if it meets all the conditions.
  pub evaluate_eligibility_iff :
      (i : EligibilityInput F) (b : KsmProfile F)
      → ((evaluate_eligibility fl i b).disposition ≡ PlanDisposition.eligible) ↔ Meets i b
  unfolding evaluate_eligibility disposition_of
  evaluate_eligibility_iff i b =
      let conditions =
        all_hold (is_some_and i.cpu_percent (λ cpu. fl.lt b.maximum_scanner_cpu_percent cpu))
          (is_some_and i.cow_events_per_second (λ rate. ltb b.maximum_cow_events_per_second rate))
          (is_some_and i.profit_bytes (λ profit. leb_ℤ profit (pos 0))) i.cooldown_active
          (is_unsafe_state i.pressure) (ltb i.mergeable_bytes b.minimum_mergeable_bytes)
          (ltb i.stable_observations b.minimum_stable_observations) i.external_ksm_activity
          (not i.already_mergeable && not i.owned_cooperative) (not i.same_security_domain)
          (i.critical || i.protected) i.gaming i.foreground
          (not (no_identity i.identity) && not i.identity_fresh) (no_identity i.identity)
          (is_unknown i.profile) in
      (
        λ h. Conditions-Meets (conditions.0 (sym (no_reasons i b) ∙ eligible_test _ h)),
        λ m. ap disposition_of (no_reasons i b ∙ conditions.1 (Meets-Conditions m)),
      )
