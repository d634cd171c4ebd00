-- ===== src/Zram/Transaction.antt =====
-- The replacement of a zram device, its rollback and recovery (crates/zram/src/transaction.rs).
pub mod Swap
pub mod Recovery
use nemor.Base.{
  ℕ, Bool, true, false, not, ◌||◌, String, Option, none, some, ltb, ◌==◌, opt_eq, join, unwrap_or,
  Result, ok, err, if◌then◌else◌,
}
use nemor.Base.Integer.{ℤ, pos}
use nemor.Base.Proc.{Proc, ◌>>=◌, ◌>>◌, pure, fail, query, need, refuse, modify, when}
use nemor.Zram.Types.{
  Provider, DeviceInventory, ZramProfilePlan, ZramError, blocked, verification, error_text,
  is_explicit,
}
use nemor.Zram.Interface.{ZramBackend}

pub data MutationPhase : Type 0 where
  snapshot_taken replacement_created algorithm_configured initialized activated original_deactivated
        verified rolled_back :
      MutationPhase

-- The derived `==` against the last phase.
abbrev pub is_rolled_back : MutationPhase → Bool
is_rolled_back rolled_back = true
is_rolled_back _ = false

pub record MutationSnapshot (F : Type 0) : Type 0 where
  pub session_id : ℤ
  pub timestamp_ns : ℤ
  pub provider : Provider
  pub original : DeviceInventory
  pub replacement_name : Option String
  pub requested_plan : ZramProfilePlan F
  pub phase : MutationPhase
  pub rollback_pending : Bool
  pub last_error : Option String

pub record TransactionOutcome : Type 0 where
  pub applied : Bool
  pub verified : Bool
  pub rolled_back : Bool
  pub phase : MutationPhase

-- The two things that the functions change.
pub record Work (B F : Type 0) : Type 0 where
  pub backend : B
  pub snapshot : MutationSnapshot F

abbrev pub Step : Type 0 → Type 0 → Type 0 → Type 0
Step B F A = Proc (Work B F) ZramError A

unfoldable pub no_outcome : TransactionOutcome
no_outcome = record {
  applied = false;
  verified = false;
  rolled_back = false;
  phase = snapshot_taken;
}

unfoldable pub applied_outcome : TransactionOutcome
applied_outcome = record { applied = true; verified = true; rolled_back = false; phase = verified }

unfoldable pub rolled_back_outcome : TransactionOutcome
rolled_back_outcome = record {
  applied = false;
  verified = true;
  rolled_back = true;
  phase = rolled_back;
}

-- `filter(|value| *value > 0)`.
abbrev positive : Option ℕ → Option ℕ
positive none = none
positive (some n) = if ltb 0 n then some n else none

module _ {B F : Type 0} (backend : ZramBackend B) where
  abbrev pub on_backend : {A : Type 0} → Proc B ZramError A → Step B F A
  on_backend m w = let r = m w.backend in (record w { backend = r.0 }, r.1)

  abbrev pub ask : {A : Type 0} → (B → Result ZramError A) → Step B F A
  ask f = query (λ w. f w.backend)

  abbrev pub set_phase : MutationPhase → Step B F (Unit {0})
  set_phase p = modify (λ w. record w { snapshot = record w.snapshot { phase = p } })

  unfoldable pub ensure_swap : Step B F (Unit {0})
  ensure_swap = do
    capacity ← ask backend.effective_valid_swap_capacity
    refuse (capacity == 0) (verification "no-swap-loss invariant violated")

  -- The device is configured, given its size, read back and activated.
  unfoldable pub bring_up : String → ZramProfilePlan F → Step B F (Unit {0})
  bring_up replacement plan = do
    algorithm ← need plan.selected_algorithm (blocked "selected algorithm unavailable")
    on_backend (backend.configure_uninitialized replacement algorithm)
    set_phase algorithm_configured
    disksize ← need (positive plan.proposed_disksize) (blocked "proposed disksize invalid")
    on_backend (backend.initialize replacement disksize)
    set_phase initialized
    device ← ask (backend.verify replacement)
    refuse (not (opt_eq device.disksize (some disksize)))
        (verification "replacement disksize readback mismatch")
    on_backend (backend.activate replacement (unwrap_or plan.proposed_priority (pos 100)))
    set_phase activated

  unfoldable pub leave_original : String → Step B F (Unit {0})
  leave_original original = do
    on_backend (backend.deactivate original)
    set_phase original_deactivated
    ensure_swap

  -- The original swap is left, where the plan asks for it.
  unfoldable pub migrate : String → ZramProfilePlan F → ℕ → Step B F (Unit {0})
  migrate original plan initial_capacity = when plan.requires_swap_migration (do
    refuse (initial_capacity == 0) (verification "migration cannot start without valid swap")
    leave_original original)

  unfoldable pub confirm : String → Step B F TransactionOutcome
  unfolding applied_outcome
  confirm replacement = do
    device ← ask (backend.verify replacement)
    refuse (not device.active_swap) (verification "replacement is not active swap")
    modify (λ w. record w {
      snapshot = record w.snapshot { phase = verified; rollback_pending = false };
    })
    pure applied_outcome

  replace : String → MutationSnapshot F → ℕ → Step B F TransactionOutcome
  replace replacement x initial_capacity =
      bring_up replacement x.requested_plan
      >> (ensure_swap
          >> (migrate x.original.name x.requested_plan initial_capacity >> confirm replacement))

  unfoldable pub apply_after_create : ℕ → Step B F TransactionOutcome
  unfolding replace
  apply_after_create initial_capacity w = elim w.snapshot.replacement_name [
    | none ↦ (w, err (verification "replacement is missing"))
    | some replacement ↦ replace replacement w.snapshot initial_capacity w
  ]

  -- The original swap is active again, where it was before.
  unfoldable pub restore_original : DeviceInventory → Step B F (Unit {0})
  restore_original original = when original.active_swap (do
    current ← ask (backend.verify original.name)
    when (not current.active_swap) (do
      on_backend (backend.activate original.name (unwrap_or original.priority (pos 100)))
      ensure_swap))

  -- The replacement is deactivated and removed, if it is the backend's own.
  remove_owned : String → Step B F (Unit {0})
  remove_owned replacement = do
    owned ← query (λ w. ok (backend.is_owned replacement w.backend))
    when owned (do
      current ← ask (backend.verify replacement)
      when current.active_swap (on_backend (backend.deactivate replacement) >> ensure_swap)
      on_backend (backend.remove_managed_device replacement))

  unfoldable pub remove_replacement : Option String → Step B F (Unit {0})
  unfolding remove_owned
  remove_replacement none w = (w, ok tt)
  remove_replacement (some replacement) w = remove_owned replacement w

  undo : MutationSnapshot F → Step B F TransactionOutcome
  unfolding rolled_back_outcome
  undo x = do
    restore_original x.original
    remove_replacement x.replacement_name
    modify (λ w. record w {
      snapshot = record w.snapshot { phase = rolled_back; rollback_pending = false };
    })
    pure rolled_back_outcome

  unfoldable pub rollback : Step B F TransactionOutcome
  unfolding rolled_back_outcome undo
  rollback w = elim (is_rolled_back w.snapshot.phase) [
    | true ↦ (w, ok rolled_back_outcome)
    | false ↦ undo w.snapshot w
  ]

  abbrev pub mark_pending : ZramError → Work B F → Work B F
  mark_pending error w = record w {
    snapshot = record w.snapshot { last_error = some (error_text error); rollback_pending = true };
  }

  -- A failure behind the creation is recorded, and rolled back; `let _ =` drops the result of that.
  unfoldable pub settle :
      Work B F × Result ZramError TransactionOutcome
      → Work B F × Result ZramError TransactionOutcome
  settle (w, ok outcome) = (w, ok outcome)
  settle (w, err error) = ((rollback (mark_pending error w)).0, err error)

  -- What the function does once the plan passed the three checks.
  unfoldable pub replace_device : Step B F TransactionOutcome
  replace_device = do
    initial_capacity ← ask backend.effective_valid_swap_capacity
    replacement ← on_backend backend.create_isolated_managed_device
    modify (λ w. record w {
      snapshot = record w.snapshot {
        replacement_name = some replacement.name;
        phase = replacement_created;
      };
    })
    (λ w. settle (apply_after_create initial_capacity w))

  unfoldable pub apply_plan : Step B F TransactionOutcome
  unfolding no_outcome
  apply_plan w =
      let plan = w.snapshot.requested_plan in
      if plan.dry_run
      then (w, ok no_outcome)
      else if not plan.allowed
      then (w, err (blocked (join "," plan.blocked_reasons)))
      else if not (is_explicit w.snapshot.original.ownership)
      then (w, err (blocked "original ownership is ambiguous"))
      else replace_device w

  unfoldable pub recover_pending : Step B F TransactionOutcome
  recover_pending w =
      let done = is_rolled_back w.snapshot.phase in
      if not w.snapshot.rollback_pending || done
      then (
        w,
        ok (record {
          applied = false;
          verified = true;
          rolled_back = done;
          phase = w.snapshot.phase;
        }),
      )
      else if not (is_explicit w.snapshot.original.ownership)
      then (w, err (blocked "recovery ownership is ambiguous"))
      else rollback w
