-- ===== src/Tiering/Backend/Rollback.antt =====
-- What the transaction of a swapfile leaves behind, its rollback included
-- (crates/tiering/src/backend.rs).
use mathlib.Core.Path.{subst}
use nemor.Base.{
  ◌≡◌, refl, sym, Bool, true, false, not, ◌&&◌, ◌||◌, some, Bool-cases, ◌⊎◌, inl, inr, List, Result,
  ok, err, is_ok, arith,
}
use nemor.Base.Proc.{Proc}
use nemor.Base.Exec.{when}
use nemor.Base.Exec.Keeps.{
  Keeps, Keeps-pure, Keeps-query, Keeps-refuse, Keeps-when, Keeps-bind, keeps_rules,
}
use nemor.Base.Exec.Turns.{
  Turns, Leads, Keeps-Turns, Keeps-Leads, Turns-bind, Leads-bind, Leads-query,
}
use nemor.Tiering.Topology.{UnixPath}
use nemor.Tiering.Swapfile.{SwapfilePlan}
use nemor.Tiering.Backend.{
  BackendError, SwapfileBackend, MutationSnapshot, TransactionOutcome, undone, text_of,
  contains_path, beside, on_backend, change, set_created, set_activated, set_rolled_back, take_down,
  deactivate, undo, undo_unless, rollback_swapfile, require_active, verify_active, attempt,
  after_failure, apply_swapfile,
}

-- What a backend is to do: a file that was removed is gone; a file that was deactivated, or that is
-- not among the active swaps, is down; and a removal leaves it down.
pub record Removal {B : Type 0} (backend : SwapfileBackend B) (Gone Down : UnixPath → B → Type 0)
    : Type 0 where
  pub removed :
      (path : UnixPath) (b : B)
      → is_ok (backend.remove_owned path b).1 ≡ true
      → Gone path (backend.remove_owned path b).0
  pub deactivated :
      (path : UnixPath) (b : B)
      → is_ok (backend.deactivate_owned path b).1 ≡ true
      → Down path (backend.deactivate_owned path b).0
  pub inactive :
      (path : UnixPath) (b : B) (active : List UnixPath)
      → backend.active_swaps b ≡ ok active
      → contains_path active path ≡ false
      → Down path b
  pub stays_down :
      (path : UnixPath) (b : B) → Down path b → Down path (backend.remove_owned path b).0

-- Not yet rolled back, and a created file has its rollback pending.
abbrev is_open : MutationSnapshot → Bool
is_open s = not s.rolled_back && (not s.created || s.rollback_pending)

-- No file was created; or its rollback is pending; or it is rolled back: the host has removed the
-- file, and taken it down where it was activated.
abbrev pub IsSettled :
    {B : Type 0} → (UnixPath → B → Type 0) → (UnixPath → B → Type 0) → MutationSnapshot × B → Type 0
IsSettled Gone Down (s, b) =
    (s.created ≡ false)
    ⊎ (s.rollback_pending ≡ true)
    ⊎ ((s.rolled_back ≡ true) × Gone s.path b × ((s.activated ≡ false) ⊎ Down s.path b))

-- The application up to its verification.
module _ {B : Type 0} (backend : SwapfileBackend B) where
  abbrev Open : MutationSnapshot × B → Type 0
  Open w = is_open w.0 ≡ true

  beside-Open :
      (s : MutationSnapshot) (r : B × Result BackendError (Unit {0}))
      → is_open s ≡ true
      → Open (beside s r).0
  beside-Open s (b, r) h = h

  on_backend-Open : (m : Proc B BackendError (Unit {0})) → Keeps Open (on_backend m)
  unfolding on_backend
  on_backend-Open m = record { at = λ (s, b) h. beside-Open s (m b) h }

  created-Open : Keeps Open (change set_created)
  unfolding change
  created-Open = record { at = λ (s, b) h. ground arith }

  activated-Open : Keeps Open (change set_activated)
  unfolding change
  activated-Open = record { at = λ (s, b) h. h }

  verify_active-Open : (path : UnixPath) → Keeps Open (verify_active backend path)
  unfolding verify_active require_active
  verify_active-Open path = search (keeps_rules) depth 20

  attempt-Open : (plan : SwapfilePlan) → Keeps Open (attempt backend plan)
  unfolding attempt
  attempt-Open plan =
      search (keeps_rules, on_backend-Open, created-Open, activated-Open, verify_active-Open) depth
        20

module _ {B : Type 0} (backend : SwapfileBackend B) {Gone Down : UnixPath → B → Type 0}
    (host : Removal backend Gone Down) where
  -- During the rollback of a snapshot it stays as it is, until the last step.
  abbrev Same : MutationSnapshot → MutationSnapshot × B → Type 0
  Same s w = w.0 ≡ s

  abbrev TakenDown : MutationSnapshot → MutationSnapshot × B → Type 0
  TakenDown s w = Same s w × ((s.activated ≡ false) ⊎ Down s.path w.1)

  abbrev Removed : MutationSnapshot → MutationSnapshot × B → Type 0
  Removed s w = TakenDown s w × ((s.created ≡ false) ⊎ Gone s.path w.1)

  beside-Same :
      (s t : MutationSnapshot) (r : B × Result BackendError (Unit {0}))
      → t ≡ s
      → Same s (beside t r).0
  beside-Same s t (b, r) h = h

  on_backend-Same :
      (s : MutationSnapshot) (m : Proc B BackendError (Unit {0})) → Keeps (Same s) (on_backend m)
  unfolding on_backend
  on_backend-Same s m = record { at = λ (t, b) h. beside-Same s t (m b) h }

  beside-at :
      (P : B → Type 0) (t : MutationSnapshot) (r : B × Result BackendError (Unit {0}))
      → (is_ok r.1 ≡ true → P r.0)
      → is_ok (beside t r).1 ≡ true
      → P (beside t r).0.1
  beside-at P t (b, r) f h = f h

  -- A call of the backend that succeeds leads to what it promises of the backend.
  on_backend-Leads :
      (s : MutationSnapshot) (m : Proc B BackendError (Unit {0})) (P : B → Type 0)
      → ((b : B) → is_ok (m b).1 ≡ true → P (m b).0)
      → Leads (Same s) (λ w. Same s w × P w.1) (on_backend m)
  unfolding on_backend
  on_backend-Leads s m P f = record {
    at = λ (t, b) h k. (beside-Same s t (m b) h, beside-at P t (m b) (f b) k);
  }

  take_down-Leads :
      (s : MutationSnapshot)
      → Leads (Same s) (λ w. Same s w × Down s.path w.1) (take_down backend s)
  unfolding take_down
  take_down-Leads s =
      Leads-bind _ _
        (on_backend-Leads s (backend.deactivate_owned s.path) (Down s.path)
          (host.deactivated s.path))
        (λ _. Keeps-Leads (Keeps-bind _ _ (Keeps-query _) (λ active. Keeps-refuse _ _)))

  take_down-Same : (s t : MutationSnapshot) → Keeps (Same s) (take_down backend t)
  unfolding take_down
  take_down-Same s t = search (keeps_rules, on_backend-Same) depth 20

  when_active-Leads :
      (s : MutationSnapshot) (active : List UnixPath) (test : Bool)
      → contains_path active s.path ≡ test
      → Leads
          (λ w. Same s w × (backend.active_swaps w.1 ≡ ok active))
          (λ w. Same s w × Down s.path w.1)
          (when test (take_down backend s))
  unfolding when
  when_active-Leads s active true e = record { at = λ w p k. (take_down-Leads s).at w p.0 k }
  when_active-Leads s active false e = record {
    at = λ w p k. (p.0, host.inactive s.path w.1 active p.1 e);
  }

  deactivate-Leads :
      (s : MutationSnapshot)
      → Leads (Same s) (λ w. Same s w × Down s.path w.1) (deactivate backend s)
  unfolding deactivate
  deactivate-Leads s = Leads-query _ _ (λ active. when_active-Leads s active _ refl)

  deactivate-Same : (s t : MutationSnapshot) → Keeps (Same s) (deactivate backend t)
  unfolding deactivate
  deactivate-Same s t = search (keeps_rules, take_down-Same) depth 20

  down_if-Leads :
      (s : MutationSnapshot) (test : Bool)
      → s.activated ≡ test
      → Leads (Same s) (TakenDown s) (when test (deactivate backend s))
  unfolding when
  down_if-Leads s true e = record {
    at = λ w p k. let (a, b) = (deactivate-Leads s).at w p k in (a, inr b);
  }
  down_if-Leads s false e = record { at = λ w p k. (p, inl e) }

  remains :
      (s : MutationSnapshot) (b : B)
      → (s.activated ≡ false) ⊎ Down s.path b
      → (s.activated ≡ false) ⊎ Down s.path (backend.remove_owned s.path b).0
  remains s b (inl e) = inl e
  remains s b (inr d) = inr (host.stays_down s.path b d)

  beside-Removed :
      (s t : MutationSnapshot) (r : B × Result BackendError (Unit {0}))
      → t ≡ s
      → (s.activated ≡ false) ⊎ Down s.path r.0
      → (is_ok r.1 ≡ true → Gone s.path r.0)
      → is_ok (beside t r).1 ≡ true
      → Removed s (beside t r).0
  beside-Removed s t (b, r) same down gone h = ((same, down), inr (gone h))

  remove_if-Leads :
      (s : MutationSnapshot) (test : Bool)
      → s.created ≡ test
      → Leads (TakenDown s) (Removed s) (when test (on_backend (backend.remove_owned s.path)))
  unfolding when on_backend
  remove_if-Leads s true e = record {
    at = λ (t, b) p k.
        beside-Removed s t (backend.remove_owned s.path b) p.0 (remains s b p.1)
          (host.removed s.path b) k;
  }
  remove_if-Leads s false e = record { at = λ w p k. (p, inl e) }

  abbrev Settled : MutationSnapshot × B → Type 0
  Settled = IsSettled Gone Down

  Open-Settled : (w : MutationSnapshot × B) → is_open w.0 ≡ true → Settled w
  Open-Settled (s, b) h = elim (Bool-cases s.created) [
    | inr c ↦ inl c
    | inl c ↦ inr (inl (ground arith))
  ]

  Same-Settled :
      (s : MutationSnapshot) → is_open s ≡ true → (w : MutationSnapshot × B) → Same s w → Settled w
  Same-Settled s h w e = Open-Settled w (subst (λ t. is_open t ≡ true) (sym e) h)

  Removed-Settled :
      (s : MutationSnapshot) (b : B)
      → (s.activated ≡ false) ⊎ Down s.path b
      → (s.created ≡ false) ⊎ Gone s.path b
      → Settled (set_rolled_back s, b)
  Removed-Settled s b down (inl e) = inl e
  Removed-Settled s b down (inr gone) = inr (inr (refl, gone, down))

  set_rolled_back-Turns :
      (s : MutationSnapshot) → Turns (Removed s) Settled (change set_rolled_back)
  unfolding change
  set_rolled_back-Turns s = record {
    at = λ (t, b) ((same, down), gone).
        subst (λ u. Settled (set_rolled_back u, b)) (sym same) (Removed-Settled s b down gone);
  }

  undo-Turns : (s : MutationSnapshot) → is_open s ≡ true → Turns (Same s) Settled (undo backend s)
  unfolding undo
  undo-Turns s h =
      let fails = Same-Settled s h in
      Turns-bind _ _ (Keeps-Turns (Keeps-query _) fails) (Keeps-Leads (Keeps-query _)) (λ owned.
        Turns-bind _ _ (Keeps-Turns (Keeps-refuse _ _) fails) (Keeps-Leads (Keeps-refuse _ _)) (λ _.
          Turns-bind _ _ (Keeps-Turns (Keeps-when _ _ (deactivate-Same s s)) fails)
            (down_if-Leads s s.activated refl)
            (λ _.
              Turns-bind _ _
                (record {
                  at = λ w p. (Keeps-Turns (Keeps-when _ _ (on_backend-Same s _)) fails).at w p.0;
                })
                (remove_if-Leads s s.created refl)
                (λ _.
                  Turns-bind _ _ (set_rolled_back-Turns s)
                    (record { at = λ w p k. (set_rolled_back-Turns s).at w p })
                    (λ _. Keeps-Turns (Keeps-pure undone) (λ w p. p))))))

  undo_unless-Settled :
      (done : Bool) (s : MutationSnapshot) (b : B)
      → done ≡ false
      → is_open s ≡ true
      → Settled (undo_unless backend done s (s, b)).0
  unfolding undo_unless
  undo_unless-Settled true s b e h = absurd (cc)
  undo_unless-Settled false s b e h = (undo-Turns s h).at (s, b) refl

  rollback_swapfile-Settled :
      (s : MutationSnapshot) (b : B)
      → is_open s ≡ true
      → Settled (rollback_swapfile backend (s, b)).0
  unfolding rollback_swapfile
  rollback_swapfile-Settled s b h = undo_unless-Settled s.rolled_back s b (ground arith) h

  after_failure-Settled :
      (r : (MutationSnapshot × B) × Result BackendError TransactionOutcome)
      → is_open r.0.0 ≡ true
      → Settled (after_failure backend r).0
  unfolding after_failure
  after_failure-Settled (w, ok outcome) h = Open-Settled w h
  after_failure-Settled ((s, b), err error) h =
      rollback_swapfile-Settled (record s { last_error = some (text_of error) }) b h

  -- On a host whose removal and deactivation do what they are to do, and from a snapshot with nothing
  -- created and not rolled back: however the application of a swapfile plan ends, and the rollback
  -- that follows a failure, no file was created, or its rollback is still pending, or the file is
  -- gone from the host, and down where it was activated.
  pub apply_swapfile-IsSettled :
      (plan : SwapfilePlan) (w : MutationSnapshot × B)
      → w.0.created ≡ false
      → w.0.rolled_back ≡ false
      → IsSettled Gone Down (apply_swapfile backend plan w).0
  unfolding apply_swapfile
  apply_swapfile-IsSettled plan w c r =
      let fresh : is_open w.0 ≡ true = ground arith in
      elim (Bool-cases plan.dry_run) [
        | inl dry ↦ rw dry (inl c)
        | inr wet ↦ elim (Bool-cases plan.allowed) [
          | inl allowed ↦
              rw (wet, allowed)
                (after_failure-Settled (attempt backend plan w)
                  ((attempt-Open backend plan).at w fresh))
          | inr blocked ↦ rw (wet, blocked) (inl c)
        ]
      ]
