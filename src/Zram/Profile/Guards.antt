-- ===== src/Zram/Profile/Guards.antt =====
-- Exactly when a zram profile may be applied (crates/zram/src/profile.rs).
use nemor.Base.{
  ℕ, ◌≡◌, ◌↔◌, ◌⊎◌, refl, sym, ◌∙◌, Bool, true, false, not, ◌&&◌, ◌||◌, String, List, [], ◌∷◌,
  is_empty, is_empty-push_if, is_some_and, str_eq, ltb, arith,
}
use nemor.Base.Float.{Float}
use nemor.Common.Config.{CompressionConfig}
use nemor.Zram.Types.{is_explicit}
use nemor.Zram.Ranking.{insert_sorted, sort_dedup}
use nemor.Zram.Profile.{
  ProfileContext, is_unknown_provider, is_urgent, headroom_sufficient, requires_reinitialization,
  profile_blocks, plan_profile,
}

insert_sorted-full : (s : String) (ts : List String) → is_empty (insert_sorted s ts) ≡ false
unfolding insert_sorted
insert_sorted-full s [] = refl
insert_sorted-full s (t ∷ ts) = ground arith

is_empty-sort_dedup : (ss : List String) → is_empty (sort_dedup ss) ≡ is_empty ss
unfolding sort_dedup
is_empty-sort_dedup [] = refl
is_empty-sort_dedup (s ∷ ss) = insert_sorted-full s (sort_dedup ss)

-- The chain of tests as a list of conditions.
guards_hold :
    (observe active change reset reconf gaming worse psi swap urgent headroom : Bool) (events : ℕ)
    (pending same unknown explicit : Bool)
    → ((not observe
          && (not (active && (change && not reset))
              && (not (change && not reconf)
                  && (not (gaming && change)
                      && (not (worse || (psi || swap))
                          && (not urgent
                              && (not (not headroom)
                                  && (not (ltb 0 events)
                                      && (not pending
                                          && (not (not same)
                                              && (not unknown
                                                  && (not (not explicit) && true))))))))))))
        ≡ true)
      ↔ ((observe ≡ false)
          × ((active && (change && not reset)) ≡ false)
          × ((change ≡ false) ⊎ (reconf ≡ true))
          × ((gaming && change) ≡ false)
          × (worse ≡ false)
          × (psi ≡ false)
          × (swap ≡ false)
          × (urgent ≡ false)
          × (headroom ≡ true)
          × (events ≡ 0)
          × (pending ≡ false)
          × (same ≡ true)
          × (unknown ≡ false)
          × (explicit ≡ true))
guards_hold observe active change reset reconf gaming worse psi swap urgent headroom events pending
      same unknown explicit =
    ((λ h. ground arith), (λ h. ground arith))

module _ {F : Type 0} (fl : Float F) where
  -- What the context must show for a profile to be applied, outside observe mode.
  pub record IsPermitted (c : ProfileContext F) (config : CompressionConfig F) : Type 0 where
    pub owned : is_explicit c.device.ownership ≡ true
    pub provider_known : is_unknown_provider c.device.provider ≡ false
    pub provider_same : c.provider_matches_snapshot ≡ true
    pub settled : c.rollback_pending ≡ false
    pub no_events : c.safety_events ≡ 0
    pub headroom : headroom_sufficient c config ≡ true
    pub not_urgent : is_urgent c.pressure_state ≡ false
    pub not_worse : c.pressure_worsening ≡ false
    pub psi_low : is_some_and c.psi_full_avg10 (λ v. fl.le (fl.of_nat 2) v) ≡ false
    pub no_swap_in : is_some_and c.swap_in_per_second (λ v. fl.lt (fl.of_nat 0) v) ≡ false
    pub not_gaming : (c.gaming && requires_reinitialization fl c config) ≡ false
    pub reconfigurable :
        (requires_reinitialization fl c config ≡ false) ⊎ (config.allow_runtime_reconfigure ≡ true)
    pub resettable :
        (c.device.active_swap
          && (requires_reinitialization fl c config && not c.device.writable.reset))
        ≡ false

  no_blocks :
      (c : ProfileContext F) (config : CompressionConfig F) (observe : Bool)
      → is_empty (profile_blocks fl c config observe) ≡ (
          not observe
          && (not (
                c.device.active_swap
                && (requires_reinitialization fl c config && not c.device.writable.reset))
              && (not
                    (requires_reinitialization fl c config && not config.allow_runtime_reconfigure)
                  && (not (c.gaming && requires_reinitialization fl c config)
                      && (not (
                            c.pressure_worsening
                            || (is_some_and c.psi_full_avg10 (λ v. fl.le (fl.of_nat 2) v)
                                || is_some_and c.swap_in_per_second (λ v. fl.lt (fl.of_nat 0) v)))
                          && (not (is_urgent c.pressure_state)
                              && (not (not (headroom_sufficient c config))
                                  && (not (ltb 0 c.safety_events)
                                      && (not c.rollback_pending
                                          && (not (not c.provider_matches_snapshot)
                                              && (not (is_unknown_provider c.device.provider)
                                                  && (not (not (is_explicit c.device.ownership))
                                                      && true))))))))))))
  unfolding profile_blocks
  no_blocks c config observe = simp is_empty-push_if

  -- A profile plan is allowed exactly if the mode is not observe and the context permits it.
  pub plan_profile_allowed_iff :
      (c : ProfileContext F) (config : CompressionConfig F) (mode : String)
      → ((plan_profile fl c config mode).allowed ≡ true)
        ↔ ((str_eq mode "observe" ≡ false) × IsPermitted c config)
  unfolding plan_profile
  plan_profile_allowed_iff c config mode =
      let test = str_eq mode "observe" in
      let e = is_empty-sort_dedup (profile_blocks fl c config test) ∙ no_blocks c config test in
      let g =
        guards_hold test c.device.active_swap (requires_reinitialization fl c config)
          c.device.writable.reset config.allow_runtime_reconfigure c.gaming c.pressure_worsening
          (is_some_and c.psi_full_avg10 (λ v. fl.le (fl.of_nat 2) v))
          (is_some_and c.swap_in_per_second (λ v. fl.lt (fl.of_nat 0) v))
          (is_urgent c.pressure_state) (headroom_sufficient c config) c.safety_events
          c.rollback_pending c.provider_matches_snapshot (is_unknown_provider c.device.provider)
          (is_explicit c.device.ownership) in
      (
        (λ h.
            let (a, b, d, k, l, m, n, o, p, q, r, s, t, u) = g.0 (sym e ∙ h) in
            (
              a,
              record {
                owned = u;
                provider_known = t;
                provider_same = s;
                settled = r;
                no_events = q;
                headroom = p;
                not_urgent = o;
                not_worse = l;
                psi_low = m;
                no_swap_in = n;
                not_gaming = k;
                reconfigurable = d;
                resettable = b;
              },
            )),
        (λ (a, x).
            e
            ∙ g.1 (
              a, x.resettable, x.reconfigurable, x.not_gaming, x.not_worse, x.psi_low, x.no_swap_in,
              x.not_urgent, x.headroom, x.no_events, x.settled, x.provider_same, x.provider_known,
              x.owned,
            )),
      )
