-- ===== src/Policy/Transition/Severity.antt =====
-- Less memory or stronger signals never lower the observed state (crates/policy-engine/src/transition.rs).
use nemor.Base.{ℕ, ◌≤◌, ◌≡◌, true, Option, none, some, arith}
use nemor.Base.Float.{Float, IsOrdered}
use nemor.Common.Config.{PressureConfig}
use nemor.Policy.State.{rank}
use nemor.Policy.Features.{PolicyInput}
use nemor.Policy.Transition.{at_least, at_most, full_emergency, corroborating, target}

module _ {F : Type 0} (fl : Float F) where
  -- A signal that is absent is below every other.
  abbrev pub SignalLe : Option F → Option F → Type 0
  SignalLe none w = Unit {0}
  SignalLe (some v) none = ⊥
  SignalLe (some v) (some w) = fl.le v w ≡ true

  -- The second input has no more memory available and no weaker signal.
  pub record IsWorse (i j : PolicyInput F) : Type 0 where
    pub available : fl.le j.available_percent i.available_percent ≡ true
    pub psi_some : SignalLe i.psi_memory_some_avg10 j.psi_memory_some_avg10
    pub psi_full : SignalLe i.psi_memory_full_avg10 j.psi_memory_full_avg10
    pub faults : SignalLe i.major_faults_per_second j.major_faults_per_second
    pub swap_in : SignalLe i.swap_in_per_second j.swap_in_per_second
    pub swap_out : SignalLe i.swap_out_per_second j.swap_out_per_second

module _ {F : Type 0} (fl : Float F) (laws : IsOrdered fl) where
  at_least_mono :
      (v w : Option F) (t : F) → SignalLe fl v w → at_least fl v t ≡ true → at_least fl w t ≡ true
  unfolding at_least
  at_least_mono none w t h e = cc
  at_least_mono (some v) none t h e = absurd h
  at_least_mono (some v) (some w) t h e = laws.le_trans t v w e h

  at_most_mono :
      (i j : PolicyInput F) (percent : ℕ)
      → IsWorse fl i j
      → at_most fl i percent ≡ true
      → at_most fl j percent ≡ true
  unfolding at_most
  at_most_mono i j percent w e = laws.le_trans _ _ _ w.available e

  corroborating_mono :
      (i j : PolicyInput F) (c : PressureConfig F)
      → IsWorse fl i j
      → corroborating fl i c ≤ corroborating fl j c
  unfolding corroborating
  corroborating_mono i j c w = ground (
    arith,
    at_least_mono _ _ c.psi_some_avg10_threshold w.psi_some,
    at_least_mono _ _ c.psi_full_avg10_threshold w.psi_full,
    at_least_mono _ _ c.major_fault_rate_threshold w.faults,
    at_least_mono _ _ c.swap_in_rate_threshold w.swap_in,
    at_least_mono _ _ c.swap_out_rate_threshold w.swap_out,
  )

  full_emergency_mono :
      (i j : PolicyInput F) (c : PressureConfig F)
      → IsWorse fl i j
      → full_emergency fl i c ≡ true
      → full_emergency fl j c ≡ true
  unfolding full_emergency
  full_emergency_mono i j c w = at_least_mono _ _ _ w.psi_full

  -- If the second input has no more memory available and no signal that is weaker or missing where
  -- the first has it, then its target state is at least as severe.
  pub rank-target_mono :
      (i j : PolicyInput F) (c : PressureConfig F)
      → IsWorse fl i j
      → rank (target fl i c) ≤ rank (target fl j c)
  unfolding target rank
  rank-target_mono i j c w = ground (
    arith,
    at_most_mono i j c.emergency_available_percent w,
    at_most_mono i j c.critical_available_percent w,
    at_most_mono i j c.pressure_available_percent w,
    at_most_mono i j c.watch_available_percent w,
    corroborating_mono i j c w,
    full_emergency_mono i j c w,
  )
