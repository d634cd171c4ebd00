-- ===== src/Zram/Transaction/Recovery.antt =====
-- What a failed replacement, a rollback and a recovery leave behind (crates/zram/src/transaction.rs).
use mathlib.Core.Path.{subst}
use nemor.Base.{
  ◌≡◌, ◌⊎◌, inl, inr, refl, sym, ap, ◌∙◌, true, false, String, Option, none, some, Result, ok, err,
  arith, Result-cases, Bool-cases,
}
use nemor.Zram.Types.{DeviceInventory, ZramError, is_explicit}
use nemor.Zram.Interface.{ZramBackend}
use nemor.Zram.Transaction.{
  MutationPhase, MutationSnapshot, TransactionOutcome, Work, ensure_swap, restore_original,
  remove_replacement, undo, rollback, rolled_back_outcome, is_rolled_back, settle, replace_device,
  apply_plan, recover_pending, apply_after_create, mark_pending,
}

is_rolled_back-phase : (p : MutationPhase) → is_rolled_back p ≡ true → p ≡ MutationPhase.rolled_back
is_rolled_back-phase p h = ground arith

module _ {B F : Type 0} (backend : ZramBackend B) where
  restore_original-snapshot :
      (original : DeviceInventory) (w : Work B F)
      → (restore_original backend original w).0.snapshot ≡ w.snapshot
  unfolding restore_original ensure_swap
  restore_original-snapshot original w = ground arith

  remove_replacement-snapshot :
      (name : Option String) (w : Work B F)
      → (remove_replacement backend name w).0.snapshot ≡ w.snapshot
  unfolding remove_replacement ensure_swap
  remove_replacement-snapshot none w = refl
  remove_replacement-snapshot (some name) w = ground arith

  undo_cases :
      (x : MutationSnapshot F) (w : Work B F)
      → ((e : ZramError) × ((undo backend x w).1 ≡ err e)
          × ((undo backend x w).0.snapshot ≡ w.snapshot))
        ⊎ (((undo backend x w).1 ≡ ok rolled_back_outcome)
            × ((undo backend x w).0.snapshot.phase ≡ MutationPhase.rolled_back)
            × ((undo backend x w).0.snapshot.rollback_pending ≡ false))
  unfolding undo
  undo_cases x w =
      let a = restore_original-snapshot x.original w in
      let w1 : Work B F = (restore_original backend x.original w).0 in
      let b = remove_replacement-snapshot x.replacement_name w1 in
      elim (Result-cases (restore_original backend x.original w).1) [
        | inr (e, p) ↦ inl (e, ground (arith, p), ground (arith, p, a))
        | inl (u, p) ↦ elim (Result-cases (remove_replacement backend x.replacement_name w1).1) [
          | inr (e, q) ↦ inl (e, ground (arith, p, q), ground (arith, p, q, a, b))
          | inl (u, q) ↦ inr (ground (arith, p, q), ground (arith, p, q), ground (arith, p, q))
        ]
      ]

  -- A rollback either fails with the snapshot unchanged, or ends in the phase `rolled_back`.
  pub rollback_cases :
      (w : Work B F)
      → ((e : ZramError) × ((rollback backend w).1 ≡ err e)
          × ((rollback backend w).0.snapshot ≡ w.snapshot))
        ⊎ (((rollback backend w).1 ≡ ok rolled_back_outcome)
            × ((rollback backend w).0.snapshot.phase ≡ MutationPhase.rolled_back))
  unfolding rollback
  rollback_cases w = elim (Bool-cases (is_rolled_back w.snapshot.phase)) [
    | inl p ↦
        let q = is_rolled_back-phase w.snapshot.phase p in
        inr (ground (arith, p), ground (arith, p, q))
    | inr p ↦ elim (undo_cases w.snapshot w) [
      | inl (e, a, b) ↦ inl (e, ground (arith, p, a), ground (arith, p, b))
      | inr (a, b, c) ↦ inr (ground (arith, p, a), ground (arith, p, b))
    ]
  ]

  -- A snapshot of which a later recovery has nothing to forget.
  abbrev pub IsSettled : MutationSnapshot F → Type 0
  IsSettled x = (x.rollback_pending ≡ true) ⊎ (x.phase ≡ MutationPhase.rolled_back)

  settle-IsSettled :
      (r : Work B F × Result ZramError TransactionOutcome) {e : ZramError}
      → (settle backend r).1 ≡ err e
      → IsSettled (settle backend r).0.snapshot
  unfolding settle
  settle-IsSettled (w, ok o) h = absurd (cc)
  settle-IsSettled (w, err e) h = elim (rollback_cases (mark_pending backend e w)) [
    | inl (_, _, b) ↦ inl (ap (λ (x : MutationSnapshot F). x.rollback_pending) b)
    | inr (_, b) ↦ inr b
  ]

  replace_device_failed :
      (w : Work B F) {e : ZramError}
      → (replace_device backend w).1 ≡ err e
      → ((replace_device backend w).0.snapshot ≡ w.snapshot)
        ⊎ IsSettled (replace_device backend w).0.snapshot
  unfolding replace_device
  replace_device_failed w h =
      elim (Result-cases (backend.effective_valid_swap_capacity w.backend)) [
        | inr (e, p) ↦ inl (ground (arith, p))
        | inl (n, p) ↦ elim (Result-cases (backend.create_isolated_managed_device w.backend).1) [
          | inr (e, q) ↦ inl (ground (arith, p, q))
          | inl (d, q) ↦
              let w1 : Work B F = record {
                backend = (backend.create_isolated_managed_device w.backend).0;
                snapshot = record w.snapshot {
                  replacement_name = some d.name;
                  phase = MutationPhase.replacement_created;
                };
              } in
              let e : replace_device backend w ≡ settle backend (apply_after_create backend n w1) =
                ground (arith, p, q) in
              inr (
                subst
                  (λ (r : Work B F × Result ZramError TransactionOutcome). IsSettled r.0.snapshot)
                  (sym e)
                  (settle-IsSettled (apply_after_create backend n w1)
                    (ap (λ (r : Work B F × Result ZramError TransactionOutcome). r.1) (sym e) ∙ h)))
        ]
      ]

  -- If `apply_plan` fails, then either the snapshot is unchanged, since nothing was created, or it
  -- is marked for a rollback or is rolled back.
  pub apply_plan_failed :
      (w : Work B F) {e : ZramError}
      → (apply_plan backend w).1 ≡ err e
      → ((apply_plan backend w).0.snapshot ≡ w.snapshot)
        ⊎ IsSettled (apply_plan backend w).0.snapshot
  unfolding apply_plan
  apply_plan_failed w h = elim (Bool-cases w.snapshot.requested_plan.dry_run) [
    | inl p ↦ inl (ground (arith, p))
    | inr p ↦ elim (Bool-cases w.snapshot.requested_plan.allowed) [
      | inr q ↦ inl (ground (arith, p, q))
      | inl q ↦ elim (Bool-cases (is_explicit w.snapshot.original.ownership)) [
        | inr r ↦ inl (ground (arith, p, q, r))
        | inl r ↦
            let e : apply_plan backend w ≡ replace_device backend w = ground (arith, p, q, r) in
            subst
              (λ (r : Work B F × Result ZramError TransactionOutcome).
                (r.0.snapshot ≡ w.snapshot) ⊎ IsSettled r.0.snapshot)
              (sym e)
              (replace_device_failed w
                (ap (λ (r : Work B F × Result ZramError TransactionOutcome). r.1) (sym e) ∙ h))
      ]
    ]
  ]

  -- After a recovery that succeeds, another one changes nothing.
  pub recover_once :
      (w : Work B F) {o : TransactionOutcome}
      → (recover_pending backend w).1 ≡ ok o
      → (recover_pending backend (recover_pending backend w).0).0 ≡ (recover_pending backend w).0
  unfolding recover_pending
  recover_once w h = ground (arith, rollback_cases w, is_rolled_back-phase w.snapshot.phase)
