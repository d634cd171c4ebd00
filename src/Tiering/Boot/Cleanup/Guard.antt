-- ===== src/Tiering/Boot/Cleanup/Guard.antt =====
-- The clean-up before the baseline is proven (crates/tiering/src/boot_validation_v6.rs).
use nemor.Base.{◌≡◌, refl, Bool, false, String, Option, none, some, Result, ok, err, is_ok}
use nemor.Base.Exec.{◌>>=◌, query, need, refuse, pure}
use nemor.Base.Exec.Keeps.{
  Keeps, Keeps-bind, Keeps-first, Keeps-query, Keeps-when, Fails, Fails-bind, Fails-first,
  keeps_rules,
}
use nemor.Tiering.Boot.Types.{BootValidationError, PreparedManifest, BaselineRestoreObservation}
use nemor.Tiering.Boot.Stages.{TransactionStage}
use nemor.Tiering.Boot.Interface.{BootLifecycleBackend, Serializer}
use nemor.Tiering.Boot.Ledger.{DurableTransaction}
use nemor.Tiering.Boot.Lifecycle.{World, on_ledger, on_host, persist, advance, named}
use nemor.Tiering.Boot.Cleanup.{
  baseline_proven, require_proven, observe_baseline, prove_baseline, verify_then_cleanup,
}

-- The baseline is observed, and it is proven.
unfoldable pub proves :
    PreparedManifest → DurableTransaction → Option BaselineRestoreObservation → Bool
unfolding baseline_proven
proves manifest tx none = false
proves manifest tx (some o) = baseline_proven manifest tx o

module _ {B : Type 0} (backend : BootLifecycleBackend B) (serial : Serializer)
    (manifest : PreparedManifest) {P : B → Type 0}
    (kept_by_persist : (tx : DurableTransaction) (b : B)
      → P b
      → P (backend.persist_transaction tx b).0)
    (unproven : (tx : DurableTransaction) (b : B)
      → P b
      → proves manifest tx (backend.collect_baseline b manifest) ≡ false) where
  abbrev OnHost : World B → Type 0
  OnHost w = P w.1

  named-OnHost :
      (e : BootValidationError) (tx : DurableTransaction) (r : B × Result String (Unit {0}))
      → P r.0
      → P (named e tx r).0.1
  named-OnHost e tx (b, ok _) h = h
  named-OnHost e tx (b, err _) h = h

  persist-Keeps : Keeps OnHost (persist backend serial)
  unfolding persist on_host
  persist-Keeps = record {
    at = λ (tx, b) h. named-OnHost _ tx (backend.persist_transaction tx b) (kept_by_persist tx b h);
  }

  advance-Keeps : (to : TransactionStage) → Keeps OnHost (advance backend serial to)
  unfolding advance on_ledger
  advance-Keeps to = Keeps-bind _ _ (record { at = λ (tx, b) h. h }) λ _. persist-Keeps

  require_proven-fails :
      (found : Option BaselineRestoreObservation) (w : World B)
      → proves manifest w.0 found ≡ false
      → is_ok (require_proven backend serial manifest found w).1 ≡ false
  unfolding require_proven ◌>>=◌ query need refuse pure proves
  require_proven-fails none w e = refl
  require_proven-fails (some o) w e = rw e

  observe_baseline-Fails : Fails OnHost (observe_baseline backend serial manifest)
  unfolding observe_baseline ◌>>=◌ query
  observe_baseline-Fails = record {
    at = λ (tx, b) h.
        require_proven-fails (backend.collect_baseline b manifest) (tx, b) (unproven tx b h);
  }

  observe_baseline-Keeps : Keeps OnHost (observe_baseline backend serial manifest)
  unfolding observe_baseline require_proven
  observe_baseline-Keeps = search (keeps_rules) depth 20

  prove_baseline-Fails : Fails OnHost (prove_baseline backend serial manifest)
  unfolding prove_baseline
  prove_baseline-Fails = Fails-bind _ _ (Keeps-query _) λ _.
      Fails-bind _ _ (Keeps-when _ _ (advance-Keeps _)) λ _. Fails-first _ _ observe_baseline-Fails

  prove_baseline-Keeps : Keeps OnHost (prove_baseline backend serial manifest)
  unfolding prove_baseline
  prove_baseline-Keeps = Keeps-bind _ _ (Keeps-query _) λ _.
      Keeps-bind _ _ (Keeps-when _ _ (advance-Keeps _))
        λ _. Keeps-first _ _ observe_baseline-Fails observe_baseline-Keeps

  -- Where a predicate of the backend is kept by what persists the transaction, and the baseline is
  -- not proven as long as it holds, the clean-up fails and the predicate still holds: it has removed
  -- nothing that the predicate speaks of.
  pub unproven-removes_nothing :
      (w : World B)
      → P w.1
      → (is_ok (verify_then_cleanup backend serial manifest w).1 ≡ false)
        × P (verify_then_cleanup backend serial manifest w).0.1
  unfolding verify_then_cleanup
  unproven-removes_nothing w h = (
    (Fails-first _ _ prove_baseline-Fails).at w h,
    (Keeps-first _ _ prove_baseline-Fails prove_baseline-Keeps).at w h,
  )
