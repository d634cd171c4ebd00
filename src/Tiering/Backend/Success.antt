-- ===== src/Tiering/Backend/Success.antt =====
-- What a success of the transaction of a swapfile shows (crates/tiering/src/backend.rs).
use nemor.Base.{
  ◌≡◌, refl, sym, Bool, true, false, not, ◌&&◌, List, Bool-cases, inl, inr, Result, ok, err, is_ok,
}
use mathlib.Core.Bool.{true≢false}
use nemor.Base.Proc.{resume}
use nemor.Base.Exec.{◌>>=◌, pure, query, refuse}
use nemor.Base.Exec.Keeps.{Ensures, Ensures-bind}
use nemor.Tiering.Topology.{UnixPath}
use nemor.Tiering.Swapfile.{SwapfilePlan}
use nemor.Tiering.Backend.{
  BackendError, SwapfileBackend, MutationSnapshot, TransactionOutcome, undone, contains_path,
  loses_baseline, change, set_rolled_back, undo, undo_unless, rollback_swapfile, require_active,
  verify_active, attempt, after_failure, apply_swapfile,
}

-- The swapfile is active, and so is one of the swaps before it if there were any.
abbrev pub shows : UnixPath → MutationSnapshot → Result BackendError (List UnixPath) → Bool
shows path s (ok active) = contains_path active path && not (loses_baseline s.baseline_swaps active)
shows path s (err e) = false

module _ {B : Type 0} (backend : SwapfileBackend B) where
  abbrev Up : UnixPath → MutationSnapshot × B → Type 0
  Up path w = shows path w.0 (backend.active_swaps w.1) ≡ true

  require_active-shows :
      (path : UnixPath) (active : List UnixPath) (w : MutationSnapshot × B)
      → is_ok (require_active path active w).1 ≡ true
      → (shows path w.0 (ok active) ≡ true) × ((require_active path active w).0 ≡ w)
  unfolding require_active ◌>>=◌ query refuse pure
  require_active-shows path active w h = elim (Bool-cases (contains_path active path)) [
    | inl there ↦ elim (Bool-cases (loses_baseline w.0.baseline_swaps active)) [
      | inl lost ↦ absurd (true≢false (sym (rw (there, lost) at h)))
      | inr kept ↦ (rw (there, kept), simp (there, kept))
    ]
    | inr gone ↦ absurd (true≢false (sym (rw gone at h)))
  ]

  settles :
      (path : UnixPath) (w : MutationSnapshot × B) (r : Result BackendError (List UnixPath))
      → backend.active_swaps w.1 ≡ r
      → is_ok (resume (require_active path) (w, r)).1 ≡ true
      → Up path (resume (require_active path) (w, r)).0
  settles path w (ok active) e h =
      let shown = require_active-shows path active w h in rw (shown.1, e) shown.0
  settles path w (err f) e h = absurd (true≢false (sym h))

  verify_active-Ensures : (path : UnixPath) → Ensures (Up path) (verify_active backend path)
  unfolding verify_active ◌>>=◌ query
  verify_active-Ensures path = record {
    at = λ w h. settles path w (backend.active_swaps w.1) refl h;
  }

  attempt-Ensures : (plan : SwapfilePlan) → Ensures (Up plan.path) (attempt backend plan)
  unfolding attempt
  attempt-Ensures plan = Ensures-bind _ _ λ _.
      Ensures-bind _ _
        λ _. Ensures-bind _ _ λ _. Ensures-bind _ _ λ _. verify_active-Ensures plan.path

  after_failure-Up :
      (path : UnixPath) (r : (MutationSnapshot × B) × Result BackendError TransactionOutcome)
      → (is_ok r.1 ≡ true → Up path r.0)
      → is_ok (after_failure backend r).1 ≡ true
      → Up path (after_failure backend r).0
  unfolding after_failure
  after_failure-Up path (w, ok outcome) k h = k h
  after_failure-Up path (w, err error) k h = absurd (true≢false (sym h))

  -- Where a plan that is not dry is applied with success, the swapfile is active, and one of the
  -- swaps of the baseline is still active if there were any.
  pub apply_swapfile-shows :
      (plan : SwapfilePlan) (w : MutationSnapshot × B)
      → plan.dry_run ≡ false
      → is_ok (apply_swapfile backend plan w).1 ≡ true
      → shows plan.path
          (apply_swapfile backend plan w).0.0
          (backend.active_swaps (apply_swapfile backend plan w).0.1)
        ≡ true
  unfolding apply_swapfile
  apply_swapfile-shows plan w wet = elim (Bool-cases plan.allowed) [
    | inl allowed ↦
        rw (wet, allowed)
          (after_failure-Up plan.path (attempt backend plan w) ((attempt-Ensures plan).at w))
    | inr blocked ↦ rw (wet, blocked) (λ h. absurd (true≢false (sym h)))
  ]

  abbrev Undone : MutationSnapshot × B → Type 0
  Undone w = w.0.rolled_back ≡ true

  rolled_back-Ensures : Ensures Undone (change set_rolled_back >>= λ _. pure undone)
  unfolding ◌>>=◌ change pure
  rolled_back-Ensures = record { at = λ w h. refl }

  undo-Ensures : (s : MutationSnapshot) → Ensures Undone (undo backend s)
  unfolding undo
  undo-Ensures s =
      Ensures-bind _ _
        λ _. Ensures-bind _ _ λ _. Ensures-bind _ _ λ _. Ensures-bind _ _ λ _. rolled_back-Ensures

  undo_unless-Undone :
      (done : Bool) (s : MutationSnapshot) (w : MutationSnapshot × B)
      → w.0.rolled_back ≡ done
      → is_ok (undo_unless backend done s w).1 ≡ true
      → Undone (undo_unless backend done s w).0
  unfolding undo_unless pure
  undo_unless-Undone true s w e h = e
  undo_unless-Undone false s w e h = (undo-Ensures s).at w h

  rollback_swapfile-Ensures : Ensures Undone (rollback_swapfile backend)
  unfolding rollback_swapfile
  rollback_swapfile-Ensures = record {
    at = λ (s, b). undo_unless-Undone s.rolled_back s (s, b) refl;
  }

  again : (w : MutationSnapshot × B) → Undone w → rollback_swapfile backend w ≡ (w, ok undone)
  unfolding rollback_swapfile undo_unless pure
  again w h = rw h

  -- After a rollback of the swapfile that succeeds another one changes nothing.
  pub rollback_swapfile_twice :
      (w : MutationSnapshot × B)
      → is_ok (rollback_swapfile backend w).1 ≡ true
      → rollback_swapfile backend (rollback_swapfile backend w).0
        ≡ ((rollback_swapfile backend w).0, ok undone)
  rollback_swapfile_twice w h = again _ (rollback_swapfile-Ensures.at w h)
