-- ===== src/Policy/Transition/Order.antt =====
-- Pressure states compared (crates/policy-engine/src/state.rs).
use nemor.Base.{◌≡◌, ◌↔◌, true, arith}
use nemor.Policy.State.{PressureState, rank}
use nemor.Policy.Transition.{state_eq}

pub rank-injective : (a b : PressureState) → rank a ≡ rank b → a ≡ b
unfolding rank
rank-injective a b e = ground arith

pub state_eq_iff : (a b : PressureState) → (state_eq a b ≡ true) ↔ (a ≡ b)
unfolding state_eq
state_eq_iff a b = ground arith
