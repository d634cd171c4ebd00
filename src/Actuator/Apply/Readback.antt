-- ===== src/Actuator/Apply/Readback.antt =====
-- An application that succeeds was read back (crates/actuator/src/lib.rs).
use mathlib.Core.Path.{subst}
use nemor.Base.{
  sym, ◌≡◌, inl, inr, refl, Bool, true, false, not, Option, none, some, opt_eq_iff, Result, ok, err,
  arith, ap, ◌∙◌, Result-cases,
}
use nemor.Base.Integer.{ℤ}
use nemor.Base.Proc.{◌>>◌, when}
use nemor.Base.Proc.Success.{>>-ok}
use nemor.Actuator.Types.{CgroupPlan, GroupState, MutationSnapshot, ActuatorError, verification}
use nemor.Actuator.Interface.{CgroupBackend, SnapshotStore}
use nemor.Actuator.Apply.{
  Work, Step, prepare, apply_one, start_from, finish, perform, place, record_applied,
  record_verified, verify, abandon, reads_back, contains,
}

module _ {B S : Type 0} (backend : CgroupBackend B) (store : SnapshotStore S) where
  abandon-err :
      {A : Type 0} (error : ActuatorError) (w : Work B S) {v : Work B S} {a : A}
      → abandon backend store error w ≡ (v, ok a)
      → ⊥
  unfolding abandon
  abandon-err error w h = ground arith

  -- What holds of the work when the readback of the plan succeeded.
  abbrev pub ReadBack : CgroupPlan → B → Type 0
  ReadBack plan b =
      (state : GroupState) × (backend.inspect_group plan.target_group b ≡ ok (some state))
      × (contains state.pids plan.pid ≡ true)
      × (state.memory_low ≡ plan.properties.memory_low)
      × (state.memory_high ≡ plan.properties.memory_high)

  unless-ok :
      (test : Bool) (error : ActuatorError) (w : Work B S) {v : Work B S} {u : Unit {0}}
      → when (not test) (abandon backend store error) w ≡ (v, ok u)
      → (v ≡ w) × (test ≡ true)
  unless-ok true error w h = (ground arith, refl)
  unless-ok false error w h = absurd (abandon-err error w h)

  reads_back_iff :
      (plan : CgroupPlan) (state : GroupState)
      → reads_back backend store plan state ≡ true
      → (contains state.pids plan.pid ≡ true)
        × (state.memory_low ≡ plan.properties.memory_low)
        × (state.memory_high ≡ plan.properties.memory_high)
  reads_back_iff plan state h = ground (
    arith,
    opt_eq_iff state.memory_low plan.properties.memory_low,
    opt_eq_iff state.memory_high plan.properties.memory_high,
  )

  verify-ReadBack :
      (plan : CgroupPlan) (w : Work B S) {v : Work B S} {u : Unit {0}}
      → verify backend store plan w ≡ (v, ok u)
      → (v ≡ w) × ReadBack plan w.backend
  unfolding verify
  verify-ReadBack plan w h =
      elim (Result-cases (backend.inspect_group plan.target_group w.backend)) [
        | inr (e, p) ↦ absurd (ground arith)
        | inl (none, p) ↦ absurd (ground arith)
        | inl (some state, p) ↦
            let (e, r) =
              unless-ok (reads_back backend store plan state)
                (verification "readback differs from request") w (ground (arith, h, p)) in
            let (x, y, z) = reads_back_iff plan state r in (e, (state, p, x, y, z))
      ]

  record_applied-ok :
      (w : Work B S) {v : Work B S}
      → record_applied backend store w ≡ (v, ok tt)
      → (v.snapshot.applied ≡ true) × (v.backend ≡ w.backend)
  unfolding record_applied
  record_applied-ok w h = ground (arith, h)

  record_verified-ok :
      (w : Work B S) {v : Work B S} {u : Unit {0}}
      → record_verified backend store w ≡ (v, ok u)
      → (v.snapshot.verified ≡ true)
        × (v.snapshot.applied ≡ w.snapshot.applied)
        × (v.backend ≡ w.backend)
  unfolding record_verified
  record_verified-ok w h = ground (arith, h)

  abbrev confirm : CgroupPlan → Step B S (Unit {0})
  confirm plan = verify backend store plan >> record_verified backend store

  perform-ReadBack :
      (session_id : ℤ) (plan : CgroupPlan) (w : Work B S) {v : Work B S} {u : Unit {0}}
      → perform backend store session_id plan w ≡ (v, ok u)
      → ReadBack plan v.backend × (v.snapshot.applied ≡ true) × (v.snapshot.verified ≡ true)
  unfolding perform
  perform-ReadBack session_id plan w h =
      let (w1, _, h1) =
        >>-ok (place backend store session_id plan) (record_applied backend store >> confirm plan) w
          h in
      let (w2, e2, h2) = >>-ok (record_applied backend store) (confirm plan) w1 h1 in
      let (w3, e3, h3) = >>-ok (verify backend store plan) (record_verified backend store) w2 h2 in
      let (a, _) = record_applied-ok w1 e2 in
      let (same, back) = verify-ReadBack plan w2 e3 in
      let (b, c, d) = record_verified-ok w3 h3 in
      (
        subst (ReadBack plan) (sym (d ∙ ap (λ (x : Work B S). x.backend) same)) back,
        c ∙ ap (λ (x : Work B S). x.snapshot.applied) same ∙ a,
        b,
      )

  finish-ReadBack :
      (plan : CgroupPlan) (r : Work B S × Result ActuatorError (Unit {0})) {x : MutationSnapshot}
      {c : B} {t : S}
      → ((v : Work B S) (u : Unit {0})
          → r ≡ (v, ok u)
          → ReadBack plan v.backend × (v.snapshot.applied ≡ true) × (v.snapshot.verified ≡ true))
      → finish backend store r ≡ ((c, t), ok (some x))
      → ReadBack plan c × (x.applied ≡ true) × (x.verified ≡ true)
  unfolding finish
  finish-ReadBack plan (w, ok u) k h =
      let (a, b, c) = k w u refl in
      (subst (ReadBack plan) (ap (λ p. p.0.0) h) a, ground (arith, b, h), ground (arith, c, h))
  finish-ReadBack plan (w, err e) k h = absurd (cc)

  start_from-ReadBack :
      (session_id : ℤ) (plan : CgroupPlan) (r : Result ActuatorError (Option MutationSnapshot))
      (b : B) (s : S) {x : MutationSnapshot} {c : B} {t : S}
      → start_from backend store session_id plan r (b, s) ≡ ((c, t), ok (some x))
      → ReadBack plan c × (x.applied ≡ true) × (x.verified ≡ true)
  unfolding start_from
  start_from-ReadBack session_id plan (err e) b s h = absurd (cc)
  start_from-ReadBack session_id plan (ok none) b s h = absurd (cc)
  start_from-ReadBack session_id plan (ok (some y)) b s h =
      finish-ReadBack plan _
        (λ v u. perform-ReadBack session_id plan (record { backend = b; store = s; snapshot = y }))
        h

  -- A snapshot that `apply_one` returns is marked as applied and verified, and the target group of
  -- the backend then has the process and the limits of the plan.
  pub apply_verified :
      (session_id timestamp_ns : ℤ) (plan : CgroupPlan) (b : B) (s : S) {x : MutationSnapshot}
      {c : B} {t : S}
      → apply_one backend store session_id timestamp_ns plan (b, s) ≡ ((c, t), ok (some x))
      → ReadBack plan c × (x.applied ≡ true) × (x.verified ≡ true)
  unfolding apply_one
  apply_verified session_id timestamp_ns plan b s =
      start_from-ReadBack session_id plan (prepare backend store session_id timestamp_ns plan b) b s
