-- ===== src/Actuator/Apply/Checks.antt =====
-- What `apply_one` refuses without any change (crates/actuator/src/lib.rs).
use nemor.Base.{
  ◌≡◌, ◌⊎◌, inl, inr, refl, true, false, Option, none, some, opt_eq_iff, Result, ok, err, arith,
  String, ap, ◌∙◌, Result-cases,
}
use nemor.Base.Integer.{ℤ}
use nemor.Actuator.Types.{
  CgroupPlan, MutationSnapshot, ActuatorError, mutation_ready, CgroupCapabilities,
}
use nemor.Actuator.Interface.{CgroupBackend, SnapshotStore}
use nemor.Actuator.Apply.{is_managed_name, prepare, apply_one, perform, place, start_from}

module _ {B S : Type 0} (backend : CgroupBackend B) (store : SnapshotStore S) where
  -- What the reads of `apply_one` must show before it changes anything.
  pub record IsClear (plan : CgroupPlan) (b : B) : Type 0 where
    pub wet : plan.dry_run ≡ false
    pub allowed : plan.allowed ≡ true
    pub managed : is_managed_name plan.target_group ≡ true
    pub ready :
        (c : CgroupCapabilities) × (backend.capabilities b ≡ ok c) × (mutation_ready c ≡ true)
    pub fresh : backend.process_start_time plan.pid b ≡ ok (some plan.start_time_ticks)
    pub alive : (group : String) × (backend.process_group plan.pid b ≡ ok (some group))

  prepare-IsClear :
      (session_id timestamp_ns : ℤ) (plan : CgroupPlan) (b : B) {x : MutationSnapshot}
      → prepare backend store session_id timestamp_ns plan b ≡ ok (some x)
      → IsClear plan b
  unfolding prepare
  prepare-IsClear session_id timestamp_ns plan b h = elim (Result-cases (backend.capabilities b)) [
    | inr (e, p) ↦ absurd (ground arith)
    | inl (c, p) ↦ elim (Result-cases (backend.process_start_time plan.pid b)) [
      | inr (e, q) ↦ absurd (ground arith)
      | inl (start, q) ↦ elim (Result-cases (backend.process_group plan.pid b)) [
        | inr (e, r) ↦ absurd (ground arith)
        | inl (none, r) ↦ absurd (ground arith)
        | inl (some group, r) ↦ record {
          wet = ground arith;
          allowed = ground arith;
          managed = ground arith;
          ready = (c, p, ground arith);
          fresh = q ∙ ap ok ((opt_eq_iff start (some plan.start_time_ticks)).0 (ground arith));
          alive = (group, r);
        }
      ]
    ]
  ]

  start_from-guarded :
      (session_id : ℤ) (plan : CgroupPlan) (r : Result ActuatorError (Option MutationSnapshot))
      (b : B) (s : S)
      → (((start_from backend store session_id plan r (b, s)).0 ≡ (b, s))
          × (((start_from backend store session_id plan r (b, s)).1 ≡ ok none)
              ⊎ ((e : ActuatorError) × ((start_from backend store session_id plan r (b, s)).1
                    ≡ err e))))
        ⊎ ((x : MutationSnapshot) × (r ≡ ok (some x)))
  unfolding start_from
  start_from-guarded session_id plan (err e) b s = inl (refl, inr (e, refl))
  start_from-guarded session_id plan (ok none) b s = inl (refl, inl refl)
  start_from-guarded session_id plan (ok (some x)) b s = inr (x, refl)

  -- Either `apply_one` changes neither the backend nor the store, and returns nothing or an error,
  -- or the plan is neither dry nor blocked, its target is managed, the backend is able to change
  -- cgroups, and the process lives with the start time of the plan.
  pub apply_guarded :
      (session_id timestamp_ns : ℤ) (plan : CgroupPlan) (b : B) (s : S)
      → (((apply_one backend store session_id timestamp_ns plan (b, s)).0 ≡ (b, s))
          × (((apply_one backend store session_id timestamp_ns plan (b, s)).1 ≡ ok none)
              ⊎ ((e : ActuatorError) × ((apply_one backend store session_id timestamp_ns plan
                      (b, s)).1
                    ≡ err e))))
        ⊎ IsClear plan b
  unfolding apply_one
  apply_guarded session_id timestamp_ns plan b s =
      elim (start_from-guarded session_id plan
        (prepare backend store session_id timestamp_ns plan b) b s) [
          | inl h ↦ inl h
          | inr (x, p) ↦ inr (prepare-IsClear session_id timestamp_ns plan b p)
        ]

  -- If the store fails to persist the snapshot, the backend is unchanged.
  pub persisted_first :
      (session_id timestamp_ns : ℤ) (plan : CgroupPlan) (b : B) (s : S) {x : MutationSnapshot}
      {e : ActuatorError}
      → prepare backend store session_id timestamp_ns plan b ≡ ok (some x)
      → (store.persist x s).1 ≡ err e
      → ((apply_one backend store session_id timestamp_ns plan (b, s)).0.0 ≡ b)
        × ((apply_one backend store session_id timestamp_ns plan (b, s)).1 ≡ err e)
  unfolding apply_one perform place
  persisted_first session_id timestamp_ns plan b s h k = rw h (ground (arith, h, k))
