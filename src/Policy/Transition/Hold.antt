-- ===== src/Policy/Transition/Hold.antt =====
-- Hysteresis of one evaluation (crates/policy-engine/src/transition.rs).
use nemor.Base.{ℕ, ◌+◌, ◌*◌, ◌≤◌, ◌≡◌, ◌≢◌, ◌⊎◌, true, false, none, some, arith, min}
use nemor.Base.Float.{Float}
use nemor.Base.Integer.{pos, leb_ℤ, saturating_sub, i64_max}
use nemor.Common.Config.{PressureConfig}
use nemor.Policy.State.{PressureState, PersistentState}
use nemor.Policy.Features.{PolicyInput}
use nemor.Policy.Transition.{
  recovery_target, seconds_ns, target, sufficient, hold_seconds, is_immediate, since, settle, enter,
  wait, advance, transition,
}
use nemor.Policy.Transition.Order.{state_eq_iff}

-- What an elapsed hold says of two times that are not negative.
pub held_since :
    (hold now start : ℕ)
    → now ≤ i64_max
    → leb_ℤ (seconds_ns hold) (saturating_sub (pos now) (pos start)) ≡ true
    → min (hold * 1_000_000_000) i64_max + start ≤ now
unfolding seconds_ns
held_since hold now start b h = ground arith

module _ {F : Type 0} (fl : Float F) where
  abbrev pub desired : PersistentState → PolicyInput F → PressureConfig F → PressureState
  desired s i c = recovery_target s.current (target fl i c)

  -- A change needs sufficient telemetry, and either the two emergency signals at once or a candidate
  -- that was held for the configured time.
  pub transition-changed :
      (s : PersistentState) (i : PolicyInput F) (c : PressureConfig F)
      → (transition fl s i c).changed ≡ true
      → (sufficient i ≡ true)
        × ((transition fl s i c).state.current ≡ desired s i c)
        × ((is_immediate fl (desired s i c) i c ≡ true)
            ⊎ (leb_ℤ
                  (seconds_ns (hold_seconds s.current (desired s i c) c))
                  (saturating_sub i.timestamp_ns (since s (desired s i c) i.timestamp_ns))
                ≡ true))
  unfolding transition advance enter wait
  transition-changed s i c h = ground arith

  -- Either nothing is a candidate afterwards, or the state stays and the candidate is the desired
  -- state, with the time since which it is held.
  pub transition-candidate :
      (s : PersistentState) (i : PolicyInput F) (c : PressureConfig F)
      → let r = transition fl s i c in
        (r.state.candidate ≡ none)
        ⊎ ((r.changed ≡ false)
            × (sufficient i ≡ true)
            × (desired s i c ≢ s.current)
            × (r.state.current ≡ s.current)
            × (r.state.entered_at_ns ≡ s.entered_at_ns)
            × (r.state.candidate ≡ some (desired s i c))
            × (r.state.candidate_since_ns ≡ some (since s (desired s i c) i.timestamp_ns)))
  unfolding transition advance enter wait settle
  transition-candidate s i c = ground (arith, state_eq_iff (desired s i c) s.current)
