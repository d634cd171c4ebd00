-- ===== src/Zram/Transaction/Swap.antt =====
-- A replacement that succeeds leaves valid swap (crates/zram/src/transaction.rs).
use mathlib.Core.Path.{subst}
use nemor.Base.{
  ℕ, ◌≡◌, ◌≢◌, ◌⊎◌, inl, inr, sym, ap, ◌∙◌, true, false, String, some, Result, ok, err, arith,
  Result-cases, Option-cases, Bool-cases, ◌==◌,
}
use nemor.Base.Proc.{◌>>◌}
use nemor.Base.Proc.Success.{>>-ok}
use nemor.Zram.Types.{DeviceInventory, ZramProfilePlan, ZramError}
use nemor.Zram.Interface.{ZramBackend}
use nemor.Zram.Transaction.{
  MutationPhase, MutationSnapshot, TransactionOutcome, Work, Step, on_backend, set_phase,
  leave_original, ensure_swap, bring_up, migrate, confirm, replace, apply_after_create, settle,
  replace_device, apply_plan,
}

module _ {B : Type 0} (backend : ZramBackend B) where
  -- The backend reports valid swap of at least one byte.
  abbrev pub HasSwap : B → Type 0
  HasSwap b =
      (capacity : ℕ) × (backend.effective_valid_swap_capacity b ≡ ok capacity) × (capacity ≢ 0)

  abbrev pub IsActive : String → B → Type 0
  IsActive name b =
      (device : DeviceInventory) × (backend.verify name b ≡ ok device) × (device.active_swap ≡ true)

module _ {B F : Type 0} (backend : ZramBackend B) where
  ensure_swap-HasSwap :
      (w : Work B F) {v : Work B F}
      → ensure_swap backend w ≡ (v, ok tt)
      → (v ≡ w) × HasSwap backend w.backend
  unfolding ensure_swap
  ensure_swap-HasSwap w h = elim (Result-cases (backend.effective_valid_swap_capacity w.backend)) [
    | inr (e, p) ↦ absurd (ground arith)
    | inl (n, p) ↦ (ground arith, (n, p, (λ z. absurd (ground arith))))
  ]

  -- The replacement is active, and recorded as verified with nothing left to roll back.
  abbrev pub IsReplaced : String → Work B F → Type 0
  IsReplaced replacement w =
      HasSwap backend w.backend
      × IsActive backend replacement w.backend
      × (w.snapshot.phase ≡ MutationPhase.verified)
      × (w.snapshot.rollback_pending ≡ false)

  confirm-lem :
      (replacement : String) (w : Work B F) {v : Work B F} {o : TransactionOutcome}
      → confirm backend replacement w ≡ (v, ok o)
      → (v.backend ≡ w.backend)
        × (v.snapshot.phase ≡ MutationPhase.verified)
        × (v.snapshot.rollback_pending ≡ false)
        × (v.snapshot.replacement_name ≡ w.snapshot.replacement_name)
        × IsActive backend replacement w.backend
  unfolding confirm
  confirm-lem replacement w h = elim (Result-cases (backend.verify replacement w.backend)) [
    | inr (e, p) ↦ absurd (ground arith)
    | inl (d, p) ↦ (ground arith, ground arith, ground arith, ground arith, (d, p, ground arith))
  ]

  leave_original-HasSwap :
      (original : String) (w : Work B F) {v : Work B F}
      → leave_original backend original w ≡ (v, ok tt)
      → HasSwap backend v.backend
  unfolding leave_original
  leave_original-HasSwap original w h =
      let (w1, _, h1) =
        >>-ok (on_backend backend (backend.deactivate original))
          (set_phase backend MutationPhase.original_deactivated >> ensure_swap backend) w h in
      let (w2, _, h2) =
        >>-ok (set_phase backend MutationPhase.original_deactivated) (ensure_swap backend) w1 h1 in
      let (e, k) = ensure_swap-HasSwap w2 h2 in
      subst (λ (x : Work B F). HasSwap backend x.backend) (sym e) k

  migrate-HasSwap :
      (original : String) (plan : ZramProfilePlan F) (n : ℕ) (w : Work B F) {v : Work B F}
      → HasSwap backend w.backend
      → migrate backend original plan n w ≡ (v, ok tt)
      → HasSwap backend v.backend
  unfolding migrate
  migrate-HasSwap original plan n w {v = v} k h = elim (Bool-cases plan.requires_swap_migration) [
    | inr p ↦
        let e : w ≡ v = ground arith in subst (λ (x : Work B F). HasSwap backend x.backend) e k
    | inl p ↦ elim (Bool-cases (n == 0)) [
      | inl q ↦ absurd (ground arith)
      | inr q ↦ leave_original-HasSwap original w {v = v} (ground arith)
    ]
  ]

  -- The name of the replacement stays.
  bring_up-name :
      (replacement : String) (plan : ZramProfilePlan F) (w : Work B F) {v : Work B F}
      → bring_up backend replacement plan w ≡ (v, ok tt)
      → v.snapshot.replacement_name ≡ w.snapshot.replacement_name
  unfolding bring_up
  bring_up-name replacement plan w h = ground (arith, h)

  migrate-name :
      (original : String) (plan : ZramProfilePlan F) (n : ℕ) (w : Work B F) {v : Work B F}
      → migrate backend original plan n w ≡ (v, ok tt)
      → v.snapshot.replacement_name ≡ w.snapshot.replacement_name
  unfolding migrate leave_original ensure_swap
  migrate-name original plan n w h = ground (arith, h)

  replace-IsReplaced :
      (replacement : String) (x : MutationSnapshot F) (n : ℕ) (w : Work B F) {v : Work B F}
      {o : TransactionOutcome}
      → replace backend replacement x n w ≡ (v, ok o)
      → IsReplaced replacement v × (v.snapshot.replacement_name ≡ w.snapshot.replacement_name)
  unfolding replace
  replace-IsReplaced replacement x n w h =
      let last : Step B F TransactionOutcome = confirm backend replacement in
      let move : Step B F (Unit {0}) = migrate backend x.original.name x.requested_plan n in
      let (w1, e1, h1) =
        >>-ok (bring_up backend replacement x.requested_plan)
          (ensure_swap backend >> (move >> last)) w h in
      let (w2, e2, h2) = >>-ok (ensure_swap backend) (move >> last) w1 h1 in
      let (w3, e3, h3) = >>-ok move last w2 h2 in
      let (same, k1) = ensure_swap-HasSwap w1 e2 in
      let k2 : HasSwap backend w2.backend =
        subst (λ (x : Work B F). HasSwap backend x.backend) (sym same) k1 in
      let k3 = migrate-HasSwap x.original.name x.requested_plan n w2 k2 e3 in
      let (b, p, r, name, d) = confirm-lem replacement w3 h3 in
      (
        (subst (HasSwap backend) (sym b) k3, subst (IsActive backend replacement) (sym b) d, p, r),
        name
            ∙ migrate-name x.original.name x.requested_plan n w2 e3
            ∙ ap (λ (x : Work B F). x.snapshot.replacement_name) same
            ∙ bring_up-name replacement x.requested_plan w e1,
      )

  after_create-IsReplaced :
      (n : ℕ) (w : Work B F) {v : Work B F} {o : TransactionOutcome}
      → apply_after_create backend n w ≡ (v, ok o)
      → (name : String) × (v.snapshot.replacement_name ≡ some name) × IsReplaced name v
  unfolding apply_after_create
  after_create-IsReplaced n w {v = v} {o = o} h = elim (Option-cases w.snapshot.replacement_name) [
    | inl p ↦ absurd (ground arith)
    | inr (name, p) ↦
        let e : replace backend name w.snapshot n w ≡ (v, ok o) = ground (arith, p, h) in
        let (k, kept) = replace-IsReplaced name w.snapshot n w e in (name, kept ∙ p, k)
  ]

  settle-ok :
      (r : Work B F × Result ZramError TransactionOutcome) {v : Work B F} {o : TransactionOutcome}
      → settle backend r ≡ (v, ok o)
      → r ≡ (v, ok o)
  unfolding settle
  settle-ok (w, ok x) h = h
  settle-ok (w, err e) h = absurd (cc)

  replace_device-IsReplaced :
      (w : Work B F) {v : Work B F} {o : TransactionOutcome}
      → replace_device backend w ≡ (v, ok o)
      → (name : String) × (v.snapshot.replacement_name ≡ some name) × IsReplaced name v
  unfolding replace_device
  replace_device-IsReplaced w {v = v} {o = o} h =
      elim (Result-cases (backend.effective_valid_swap_capacity w.backend)) [
        | inr (e, p) ↦ absurd (ground arith)
        | inl (n, p) ↦ elim (Result-cases (backend.create_isolated_managed_device w.backend).1) [
          | inr (e, q) ↦ absurd (ground arith)
          | inl (d, q) ↦
              after_create-IsReplaced n
                (record {
                  backend = (backend.create_isolated_managed_device w.backend).0;
                  snapshot = record w.snapshot {
                    replacement_name = some d.name;
                    phase = MutationPhase.replacement_created;
                  };
                })
                {v = v} {o = o} (settle-ok _ (ground (arith, h)))
        ]
      ]

  -- If `apply_plan` succeeds, then either the plan is dry and nothing changed, or the backend has
  -- valid swap, the replacement that the snapshot names is active swap, and the snapshot is recorded
  -- as verified with no rollback pending.
  pub apply_plan_keeps_swap :
      (w : Work B F) {v : Work B F} {o : TransactionOutcome}
      → apply_plan backend w ≡ (v, ok o)
      → ((w.snapshot.requested_plan.dry_run ≡ true) × (v ≡ w))
        ⊎ ((name : String) × (v.snapshot.replacement_name ≡ some name) × IsReplaced name v)
  unfolding apply_plan
  apply_plan_keeps_swap w {v = v} {o = o} h = elim (Bool-cases w.snapshot.requested_plan.dry_run) [
    | inl p ↦ inl (p, ground arith)
    | inr p ↦
        let e : replace_device backend w ≡ (v, ok o) = ground (arith, p, h) in
        inr (replace_device-IsReplaced w e)
  ]
