-- ===== src/Tiering/Backend.antt =====
-- The transaction that creates and activates a swapfile, and its rollback
-- (crates/tiering/src/backend.rs). The backend is the record of the trait.
pub mod Rollback
pub mod Success
use nemor.Base.{
  ℕ, Bool, true, false, not, ◌&&◌, ◌||◌, String, ◌+++◌, Option, none, some, List, [], ◌∷◌, any,
  join, is_empty, if◌then◌else◌, Result, ok, err,
}
use nemor.Base.Integer.{ℤ}
use nemor.Base.Proc.{Proc}
use nemor.Base.Exec.{◌>>=◌, ◌>>◌, pure, query, refuse, when}
use nemor.Tiering.Topology.{UnixPath, path_eq}
use nemor.Tiering.Swapfile.{FilesystemKind, SwapfilePlan}

pub data BackendError : Type 0 where
  blocked : String → BackendError
  operation : String → String → BackendError
  verification : String → BackendError

pub record SwapfileBackend (B : Type 0) : Type 0 where
  pub active_swaps : B → Result BackendError (List UnixPath)
  pub create_owned : UnixPath → FilesystemKind → ℕ → Proc B BackendError (Unit {0})
  pub activate_owned : UnixPath → ℤ → Proc B BackendError (Unit {0})
  pub deactivate_owned : UnixPath → Proc B BackendError (Unit {0})
  pub remove_owned : UnixPath → Proc B BackendError (Unit {0})
  pub is_owned : B → UnixPath → Bool

pub record MutationSnapshot : Type 0 where
  pub path : UnixPath
  pub baseline_swaps : List UnixPath
  pub created : Bool
  pub activated : Bool
  pub rollback_pending : Bool
  pub rolled_back : Bool
  pub last_error : Option String

pub record TransactionOutcome : Type 0 where
  pub created : Bool
  pub activated : Bool
  pub verified : Bool
  pub rolled_back : Bool

-- The text of an error.
abbrev pub text_of : BackendError → String
text_of (blocked reason) = "tiering mutation blocked: " +++ reason
text_of (operation name message) = "tiering operation `" +++ (name +++ ("` failed: " +++ message))
text_of (verification reason) = "tiering verification failed: " +++ reason

abbrev pub untouched : TransactionOutcome
untouched = record { created = false; activated = false; verified = false; rolled_back = false }

abbrev pub applied : TransactionOutcome
applied = record { created = true; activated = true; verified = true; rolled_back = false }

abbrev pub undone : TransactionOutcome
undone = record { created = false; activated = false; verified = true; rolled_back = true }

abbrev pub contains_path : List UnixPath → UnixPath → Bool
contains_path paths path = any (λ p. path_eq p path) paths

-- There was a swap before, and none of those is active.
abbrev pub loses_baseline : List UnixPath → List UnixPath → Bool
loses_baseline baseline active =
    not (is_empty baseline) && not (any (λ path. contains_path active path) baseline)

abbrev pub Step : Type 0 → Type 0 → Type 0
Step B A = Proc (MutationSnapshot × B) BackendError A

module _ {B : Type 0} where
  -- The backend's half of the state.
  abbrev pub beside :
      MutationSnapshot
      → B × Result BackendError (Unit {0})
      → (MutationSnapshot × B) × Result BackendError (Unit {0})
  beside s (b, r) = ((s, b), r)

  unfoldable pub on_backend : Proc B BackendError (Unit {0}) → Step B (Unit {0})
  on_backend m (s, b) = beside s (m b)

  unfoldable pub change : (MutationSnapshot → MutationSnapshot) → Step B (Unit {0})
  change f (s, b) = ((f s, b), ok tt)

abbrev pub set_created : MutationSnapshot → MutationSnapshot
set_created s = record s { created = true; rollback_pending = true }

abbrev pub set_activated : MutationSnapshot → MutationSnapshot
set_activated s = record s { activated = true }

abbrev pub set_rolled_back : MutationSnapshot → MutationSnapshot
set_rolled_back s = record s { rollback_pending = false; rolled_back = true }

module _ {B : Type 0} where
  unfoldable pub require_active : UnixPath → List UnixPath → Step B TransactionOutcome
  require_active path active = do
    refuse (not (contains_path active path)) (verification "owned swapfile is not active")
    s ← query (λ w. ok w.0)
    refuse (loses_baseline s.baseline_swaps active) (verification "no-swap-loss invariant violated")
    pure applied

module _ {B : Type 0} (backend : SwapfileBackend B) where
  unfoldable pub take_down : MutationSnapshot → Step B (Unit {0})
  unfolding on_backend
  take_down s = do
    on_backend (backend.deactivate_owned s.path)
    active ← query (λ w. backend.active_swaps w.1)
    refuse (loses_baseline s.baseline_swaps active)
        (verification "rollback would lose all baseline swap")

  unfoldable pub deactivate : MutationSnapshot → Step B (Unit {0})
  unfolding take_down
  deactivate s = do
    active ← query (λ w. backend.active_swaps w.1)
    when (contains_path active s.path) (take_down s)

  unfoldable pub undo : MutationSnapshot → Step B TransactionOutcome
  unfolding deactivate on_backend change
  undo s = do
    owned ← query (λ w. ok (backend.is_owned w.1 s.path))
    refuse (not owned && (s.created || s.activated)) (blocked "rollback ownership is ambiguous")
    when s.activated (deactivate s)
    when s.created (on_backend (backend.remove_owned s.path))
    change set_rolled_back
    pure undone

  -- The first argument says whether it was rolled back before.
  unfoldable pub undo_unless : Bool → MutationSnapshot → Step B TransactionOutcome
  unfolding undo
  undo_unless true s = pure undone
  undo_unless false s = undo s

  unfoldable pub rollback_swapfile : Step B TransactionOutcome
  unfolding undo_unless
  rollback_swapfile (s, b) = undo_unless s.rolled_back s (s, b)

  unfoldable pub verify_active : UnixPath → Step B TransactionOutcome
  unfolding require_active
  verify_active path = do active ← query (λ w. backend.active_swaps w.1); require_active path active

  unfoldable pub attempt : SwapfilePlan → Step B TransactionOutcome
  unfolding on_backend change verify_active
  attempt plan = do
    on_backend (backend.create_owned plan.path plan.filesystem plan.proposed_size)
    change set_created
    on_backend (backend.activate_owned plan.path plan.priority)
    change set_activated
    verify_active plan.path

  -- After a failure the result of the rollback is ignored.
  unfoldable pub after_failure :
      (MutationSnapshot × B) × Result BackendError TransactionOutcome
      → (MutationSnapshot × B) × Result BackendError TransactionOutcome
  unfolding rollback_swapfile
  after_failure (w, ok outcome) = (w, ok outcome)
  after_failure ((s, b), err error) =
      ((rollback_swapfile (record s { last_error = some (text_of error) }, b)).0, err error)

  unfoldable pub apply_swapfile : SwapfilePlan → Step B TransactionOutcome
  unfolding attempt after_failure
  apply_swapfile plan w =
      if plan.dry_run
      then (w, ok untouched)
      else if not plan.allowed
      then (w, err (blocked (join "," plan.blocked_reasons)))
      else after_failure (attempt plan w)
