-- ===== src/Tiering/Boot/Lifecycle.antt =====
-- Application, selection of the boot entry, and clean-up of a boot validation
-- (crates/tiering/src/boot_validation_v6.rs). The checks of the manifest are an argument of
-- the operations.
pub mod Stable
use nemor.Base.{
  ℕ, Bool, true, false, not, ◌&&◌, ◌||◌, String, ◌+++◌, Option, none, some, List, [], ◌∷◌, ◌++◌,
  ◌==◌, str_eq, opt_str_eq, strs_eq, any, filter, reverse, is_some, if◌then◌else◌, Result, ok, err,
}
use nemor.Base.Proc.{Proc}
use nemor.Base.Exec.{◌>>=◌, ◌>>◌, pure, need, query, refuse, when}
use nemor.Tiering.Boot.Types.{
  BootValidationError, readback, PreparedManifest, OwnedArtifact, OwnedArtifactKind, SwapIdentity,
}
use nemor.Tiering.Boot.Stages.{TransactionStage}
use nemor.Tiering.Boot.Interface.{BootLifecycleBackend, Serializer, Document}
use nemor.Tiering.Boot.Ledger
use nemor.Tiering.Boot.Ledger.{
  DurableTransaction, evidence, validate, transition, record_intent, complete_last, record_evidence,
  mark_failed, reseal,
}

abbrev pub is_helper : OwnedArtifactKind → Bool
is_helper OwnedArtifactKind.helper_binary = true
is_helper _ = false

abbrev pub orders_eq : Option (List String) → List String → Bool
orders_eq none expected = false
orders_eq (some actual) expected = strs_eq actual expected

abbrev pub in_stage : TransactionStage → TransactionStage → Bool
in_stage TransactionStage.baseline_measured TransactionStage.baseline_measured = true
in_stage TransactionStage.baseline_selected TransactionStage.baseline_selected = true
in_stage TransactionStage.baseline_boot TransactionStage.baseline_boot = true
in_stage TransactionStage.post_boot_measuring TransactionStage.post_boot_measuring = true
in_stage TransactionStage.activation_verified TransactionStage.activation_verified = true
in_stage _ _ = false

-- Steps on a transaction beside a backend.
abbrev pub World : Type 0 → Type 0
World B = DurableTransaction × B

abbrev pub Boot : Type 0 → Type 0 → Type 0
Boot B A = Proc (World B) BootValidationError A

abbrev pub retained : BootValidationError
retained = readback "bounded mutation failed; transaction retained"

module _ {B A : Type 0} where
  abbrev pub beside :
      B → DurableTransaction × Result BootValidationError A → World B × Result BootValidationError A
  beside b (tx, r) = ((tx, b), r)

  -- A method of the transaction.
  unfoldable pub on_ledger : Proc DurableTransaction BootValidationError A → Boot B A
  on_ledger m (tx, b) = beside b (m tx)

  abbrev pub named :
      BootValidationError
      → DurableTransaction
      → B × Result String A
      → World B × Result BootValidationError A
  named e tx (b, ok a) = ((tx, b), ok a)
  named e tx (b, err _) = ((tx, b), err e)

  -- A method of the backend, its error replaced.
  unfoldable pub on_host : BootValidationError → Proc B String A → Boot B A
  on_host e m (tx, b) = named e tx (m b)

module _ {B : Type 0} where
  unfoldable pub change : (DurableTransaction → DurableTransaction) → Boot B (Unit {0})
  change f (tx, b) = ((f tx, b), ok tt)

  -- `.err()`, pushed.
  abbrev pub note_error : B × Result String (Unit {0}) → List String → B × List String
  note_error (b, ok _) errors = (b, errors)
  note_error (b, err e) errors = (b, errors ++ (e ∷ []))

module _ {B : Type 0} (backend : BootLifecycleBackend B) (serial : Serializer) where
  abbrev pub seal_of : Ledger.DurableTransactionPayload → String
  seal_of payload = serial.canonical_json_sha256 (Document.payload_json payload)

  unfoldable pub persist : Boot B (Unit {0})
  unfolding on_host
  persist (tx, b) =
      on_host (readback "durable transaction persistence") (backend.persist_transaction tx) (tx, b)

  unfoldable pub fail_transaction : {A : Type 0} → String → List String → Boot B A
  fail_transaction primary secondary (tx, b) =
      let tx' = mark_failed seal_of primary secondary tx in
      ((tx', (backend.persist_transaction tx' b).0), err retained)

  fail_on_error :
      {A : Type 0}
      → DurableTransaction
      → B × Result String A
      → World B × Result BootValidationError A
  fail_on_error tx (b, ok a) = ((tx, b), ok a)
  fail_on_error tx (b, err primary) = fail_transaction primary [] (tx, b)

  -- `.map_err(|primary| fail_transaction(backend, tx, primary, Vec::new()))?`.
  unfoldable pub or_fail : {A : Type 0} → Proc B String A → Boot B A
  unfolding fail_on_error fail_transaction
  or_fail m (tx, b) = fail_on_error tx (m b)

  -- `if bad { return Err(fail_transaction(..)) }`.
  unfoldable pub fail_if : Bool → String → Boot B (Unit {0})
  unfolding fail_transaction
  fail_if bad primary w = if bad then fail_transaction primary [] w else (w, ok tt)

  unfoldable pub advance : TransactionStage → Boot B (Unit {0})
  unfolding persist on_ledger
  advance to = do on_ledger (transition seal_of to); persist

  unfoldable pub intend : String → String → Boot B (Unit {0})
  unfolding persist
  intend operation target = do change (record_intent seal_of operation target); persist

  unfoldable pub finish_intent : String → Boot B (Unit {0})
  finish_intent hash = on_ledger (complete_last seal_of hash)

  -- Evidence is serialized, persisted, and its hash recorded.
  unfoldable pub keep_evidence : String → Document → String → Boot B (Unit {0})
  keep_evidence name document failure = do
    bytes ← need (serial.to_vec document) BootValidationError.payload
    on_host (readback failure) (backend.persist_evidence name bytes)
    change (record_evidence seal_of name (serial.bytes_sha256 bytes))

  -- The default entry and the boot order are those of the manifest.
  abbrev pub boot_unchanged : PreparedManifest → B → Bool
  boot_unchanged manifest b =
      opt_str_eq (backend.permanent_default b) (some manifest.payload.boot.default_entry.id)
      && orders_eq (backend.boot_order b) manifest.payload.boot.boot_order

  abbrev pub one_shot_is : PreparedManifest → String → B → Bool
  one_shot_is manifest entry b =
      opt_str_eq (backend.read_one_shot b) (some entry) && boot_unchanged manifest b

  unfoldable pub remove_each : List OwnedArtifact → B → List String → B × List String
  remove_each [] b errors = (b, errors)
  remove_each (artifact ∷ artifacts) b errors =
      let (b', errors') = note_error (backend.remove_artifact artifact b) errors in
      remove_each artifacts b' errors'

  unfoldable pub rollback_partial_apply :
      PreparedManifest → List OwnedArtifact → B → List String → B × List String
  unfolding remove_each
  rollback_partial_apply manifest created b errors =
      let (b', errors') = remove_each (reverse created) b errors in
      note_error (backend.remove_swapfile manifest b') errors'

  -- The artifacts made so far are taken back, and the transaction fails.
  unfoldable pub undo_and_fail :
      PreparedManifest → List OwnedArtifact → String → List String → Boot B (Unit {0})
  unfolding rollback_partial_apply fail_transaction
  undo_and_fail manifest created primary errors (tx, b) =
      let (b', secondary) = rollback_partial_apply manifest created b errors in
      fail_transaction primary secondary (tx, b')
