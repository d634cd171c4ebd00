-- ===== src/Tiering/Boot/Lifecycle/Stable.antt =====
-- Predicates of the transaction that its own methods keep, and the steps of the lifecycle that keep
-- them for that reason (crates/tiering/src/boot_validation_v6.rs).
use nemor.Base.{ℕ, ◌≡◌, Bool, true, false, String, some, List, [], str_eq, Result, ok, err}
use nemor.Base.Proc.{Proc}
use nemor.Base.Exec.Keeps.{Keeps, keeps_rules}
use nemor.Tiering.Boot.Types.{
  BootValidationError, readback, PreparedManifest, OwnedArtifact, SwapIdentity,
}
use nemor.Tiering.Boot.Stages.{TransactionStage}
use nemor.Tiering.Boot.Interface.{BootLifecycleBackend, Serializer, Document}
use nemor.Tiering.Boot.Ledger.{
  DurableTransaction, DurableTransactionPayload, PostBootSummary, validate, transition,
  record_intent, complete_last, record_evidence, mark_failed, reseal,
}
use nemor.Tiering.Boot.Lifecycle.{
  World, beside, on_ledger, named, on_host, change, seal_of, persist, fail_transaction, or_fail,
  fail_on_error, fail_if, advance, intend, finish_intent, keep_evidence, undo_and_fail,
  rollback_partial_apply,
}

-- The name of the evidence that no step records.
abbrev pub unrecorded : String
unrecorded = "zram-baseline-evidence-v2.json"

-- A predicate that the methods of the transaction keep.
pub record IsStable (seal : DurableTransactionPayload → String) (Q : DurableTransaction → Type 0)
    : Type 0 where
  pub validated : (tx : DurableTransaction) → Q tx → Q (validate seal tx).0
  pub moved : (to : TransactionStage) (tx : DurableTransaction) → Q tx → Q (transition seal to tx).0
  pub intended :
      (operation target : String) (tx : DurableTransaction)
      → Q tx
      → Q (record_intent seal operation target tx)
  pub completed :
      (hash : String) (tx : DurableTransaction) → Q tx → Q (complete_last seal hash tx).0
  pub evidenced :
      (name hash : String) (tx : DurableTransaction)
      → str_eq name unrecorded ≡ false
      → Q tx
      → Q (record_evidence seal name hash tx)
  pub swapped :
      (swap : SwapIdentity) (tx : DurableTransaction)
      → Q tx
      → Q (reseal seal (record tx.payload { applied_swap_identity = some swap }) tx)
  pub summarised :
      (summary : PostBootSummary) (tx : DurableTransaction)
      → Q tx
      → Q (reseal seal (record tx.payload { post_boot_summary = some summary }) tx)
  pub failed :
      (primary : String) (secondary : List String) (tx : DurableTransaction)
      → Q tx
      → Q (mark_failed seal primary secondary tx)

module _ {B : Type 0} (backend : BootLifecycleBackend B) (serial : Serializer)
    {Q : DurableTransaction → Type 0} (q : IsStable (seal_of backend serial) Q) where
  abbrev pub Of : World B → Type 0
  Of w = Q w.0

  named-Keeps :
      {A : Type 0} (e : BootValidationError) (tx : DurableTransaction) (r : B × Result String A)
      → Q tx
      → Q (named e tx r).0.0
  named-Keeps e tx (b, ok a) h = h
  named-Keeps e tx (b, err f) h = h

  pub on_host-Keeps :
      {A : Type 0} (e : BootValidationError) (m : Proc B String A) → Keeps Of (on_host e m)
  unfolding on_host
  on_host-Keeps e m = record { at = λ (tx, b) h. named-Keeps e tx (m b) h }

  beside-Keeps :
      {A : Type 0} (b : B) (r : DurableTransaction × Result BootValidationError A)
      → Q r.0
      → Q (beside b r).0.0
  beside-Keeps b (tx, r) h = h

  on_ledger-Keeps :
      {A : Type 0} (m : Proc DurableTransaction BootValidationError A)
      → ((tx : DurableTransaction) → Q tx → Q (m tx).0)
      → Keeps Of (on_ledger m)
  unfolding on_ledger
  on_ledger-Keeps m k = record { at = λ (tx, b) h. beside-Keeps b (m tx) (k tx h) }

  pub validate-Keeps : Keeps Of (on_ledger (validate (seal_of backend serial)))
  validate-Keeps = on_ledger-Keeps (validate (seal_of backend serial)) q.validated

  pub transition-Keeps :
      (to : TransactionStage) → Keeps Of (on_ledger (transition (seal_of backend serial) to))
  transition-Keeps to = on_ledger-Keeps (transition (seal_of backend serial) to) (q.moved to)

  pub change-Keeps :
      (f : DurableTransaction → DurableTransaction)
      → ((tx : DurableTransaction) → Q tx → Q (f tx))
      → Keeps Of (change f)
  unfolding change
  change-Keeps f k = record { at = λ (tx, b) h. k tx h }

  pub persist-Keeps : Keeps Of (persist backend serial)
  unfolding persist
  persist-Keeps = record {
    at = λ (tx, b) h.
        (on_host-Keeps (readback "durable transaction persistence")
            (backend.persist_transaction tx)).at
          (tx, b) h;
  }

  pub failed-Keeps :
      (primary : String) (secondary : List String) (w : World B)
      → Q w.0
      → Q (fail_transaction backend serial {A = Unit {0}} primary secondary w).0.0
  unfolding fail_transaction
  failed-Keeps primary secondary (tx, b) h = q.failed primary secondary tx h

  pub fail_if-Keeps :
      (bad : Bool) (primary : String) → Keeps Of (fail_if backend serial bad primary)
  unfolding fail_if
  fail_if-Keeps true primary = record { at = λ w h. failed-Keeps primary [] w h }
  fail_if-Keeps false primary = record { at = λ w h. h }

  fail_on_error-Keeps :
      {A : Type 0} (tx : DurableTransaction) (r : B × Result String A)
      → Q tx
      → Q (fail_on_error backend serial tx r).0.0
  unfolding fail_on_error fail_transaction
  fail_on_error-Keeps tx (b, ok a) h = h
  fail_on_error-Keeps tx (b, err e) h = q.failed e [] tx h

  pub or_fail-Keeps : {A : Type 0} (m : Proc B String A) → Keeps Of (or_fail backend serial m)
  unfolding or_fail
  or_fail-Keeps m = record { at = λ (tx, b) h. fail_on_error-Keeps tx (m b) h }

  pub finish_intent-Keeps : (hash : String) → Keeps Of (finish_intent backend serial hash)
  unfolding finish_intent
  finish_intent-Keeps hash =
      on_ledger-Keeps (complete_last (seal_of backend serial) hash) (q.completed hash)

  pub advance-Keeps : (to : TransactionStage) → Keeps Of (advance backend serial to)
  unfolding advance
  advance-Keeps to = search (keeps_rules, transition-Keeps, persist-Keeps)

  pub intend-Keeps : (operation target : String) → Keeps Of (intend backend serial operation target)
  unfolding intend
  intend-Keeps operation target =
      let changed =
        change-Keeps (record_intent (seal_of backend serial) operation target)
          (q.intended operation target) in
      search (keeps_rules, changed, persist-Keeps)

  pub keep_evidence-Keeps :
      (name : String) (document : Document) (failure : String)
      → str_eq name unrecorded ≡ false
      → Keeps Of (keep_evidence backend serial name document failure)
  unfolding keep_evidence
  keep_evidence-Keeps name document failure e =
      let changed = λ (bytes : List ℕ).
        change-Keeps (record_evidence (seal_of backend serial) name (serial.bytes_sha256 bytes))
          (λ tx h. q.evidenced name (serial.bytes_sha256 bytes) tx e h) in
      search (keeps_rules, on_host-Keeps, changed)

  pub undo_and_fail-Keeps :
      (manifest : PreparedManifest) (created : List OwnedArtifact) (primary : String)
      (errors : List String) (w : World B)
      → Q w.0
      → Q (undo_and_fail backend serial manifest created primary errors w).0.0
  unfolding undo_and_fail
  undo_and_fail-Keeps manifest created primary errors (tx, b) h =
      failed-Keeps primary (rollback_partial_apply backend serial manifest created b errors).1
        (tx, (rollback_partial_apply backend serial manifest created b errors).0) h
