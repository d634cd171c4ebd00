-- ===== src/Tiering/Boot/Ledger.antt =====
-- The durable transaction of a boot validation (crates/tiering/src/boot_validation_v6.rs). Its seal
-- is a hash of the payload, an argument.
pub mod Fields
use nemor.Base.{
  ℕ, Bool, true, false, not, ◌&&◌, ◌||◌, String, Option, none, some, List, [], ◌∷◌, ◌++◌, str_eq,
  map, if◌then◌else◌, Result, ok, err,
}
use nemor.Base.Proc.{Proc, ◌>>=◌, ◌>>◌, refuse, modify}
use nemor.Tiering.Boot.Types.{BootValidationError, SwapIdentity}
use nemor.Tiering.Boot.Stages.{TransactionStage, legal_transition}

pub record MutationRecord : Type 0 where
  pub operation : String
  pub target : String
  pub completed : Bool
  pub evidence_sha256 : Option String
  pub boot_id : String

pub record PostBootSummary : Type 0 where
  pub backing_write_bytes : ℕ
  pub latency_ns : ℕ
  pub write_budget_passed : Bool
  pub oom : Bool
  pub safety_failure : Bool
  pub backing_write_confidence : String

pub record DurableTransactionPayload : Type 0 where
  pub validation_id : String
  pub manifest_sha256 : String
  pub stage : TransactionStage
  pub baseline_boot_id : String
  pub current_boot_id : String
  pub artifact_registry : List String
  pub swapfile_registry : List String
  pub unit_registry : List String
  pub transient_unit_registry : List String
  pub applied_swap_identity : Option SwapIdentity
  pub evidence_hashes : List (String × String)
  pub mutation_records : List MutationRecord
  pub primary_error : Option String
  pub failed_from_stage : Option TransactionStage
  pub secondary_errors : List String
  pub recovery_state : String
  pub idempotence_verified : Bool
  pub activation_parameter_index : ℕ
  pub original_primary_error : Option String
  pub terminal_archive_sha256 : Option String
  pub post_boot_summary : Option PostBootSummary

pub record DurableTransaction : Type 0 where
  pub schema : String
  pub payload : DurableTransactionPayload
  pub payload_sha256 : String

abbrev pub durable_transaction_schema : String
durable_transaction_schema = "tiering-boot-transaction-v6"

-- `BTreeMap::get`, `contains_key` and `insert`, on the entries in the order of insertion.
unfoldable pub evidence : String → List (String × String) → Option String
evidence name [] = none
evidence name ((key, value) ∷ rest) = if str_eq key name then some value else evidence name rest

abbrev pub insert_evidence : String → String → List (String × String) → List (String × String)
insert_evidence name value hashes = (name, value) ∷ hashes

abbrev pub complete : String → MutationRecord → MutationRecord
complete hash m = record m { completed = true; evidence_sha256 = some hash }

-- `last_mut()`: the records with the last one completed, none if there is no record.
unfoldable pub complete_last_of : String → List MutationRecord → Option (List MutationRecord)
complete_last_of hash [] = none
complete_last_of hash (m ∷ []) = some (complete hash m ∷ [])
complete_last_of hash (m ∷ (n ∷ rest)) = keep m (complete_last_of hash (n ∷ rest))
  where
    keep : MutationRecord → Option (List MutationRecord) → Option (List MutationRecord)
    keep m none = none
    keep m (some ms) = some (m ∷ ms)

module _ (seal_of : DurableTransactionPayload → String) where
  -- Every change of the payload is sealed again.
  abbrev pub reseal : DurableTransactionPayload → DurableTransaction → DurableTransaction
  reseal payload tx = record tx { payload = payload; payload_sha256 = seal_of payload }

  unfoldable pub seal : DurableTransactionPayload → DurableTransaction
  seal payload = record {
    schema = durable_transaction_schema;
    payload = payload;
    payload_sha256 = seal_of payload;
  }

  abbrev pub is_sealed : DurableTransaction → Bool
  is_sealed tx =
      str_eq tx.schema durable_transaction_schema && str_eq (seal_of tx.payload) tx.payload_sha256

  abbrev pub Ledger : Type 0
  Ledger = Proc DurableTransaction BootValidationError (Unit {0})

  unfoldable pub validate : Ledger
  validate tx = refuse (not (is_sealed tx)) BootValidationError.payload tx

  unfoldable pub transition : TransactionStage → Ledger
  unfolding validate
  transition to tx =
      (do
        validate
        refuse (not (legal_transition tx.payload.stage to)) BootValidationError.transition
        modify λ tx. reseal (record tx.payload { stage = to }) tx)
        tx

  abbrev pub intent : String → String → String → MutationRecord
  intent operation target boot_id = record {
    operation = operation;
    target = target;
    completed = false;
    evidence_sha256 = none;
    boot_id = boot_id;
  }

  unfoldable pub record_intent : String → String → DurableTransaction → DurableTransaction
  record_intent operation target tx =
      reseal
        (record tx.payload {
          mutation_records =
              tx.payload.mutation_records
              ++ (intent operation target tx.payload.current_boot_id ∷ []);
        })
        tx

  with_records : Option (List MutationRecord) → Ledger
  with_records none tx = (tx, err BootValidationError.transition)
  with_records (some records) tx =
      (reseal (record tx.payload { mutation_records = records }) tx, ok tt)

  unfoldable pub complete_last : String → Ledger
  unfolding with_records
  complete_last hash tx = with_records (complete_last_of hash tx.payload.mutation_records) tx

  -- An evidence hash, and the seal after it.
  unfoldable pub record_evidence : String → String → DurableTransaction → DurableTransaction
  record_evidence name hash tx =
      reseal
        (record tx.payload {
          evidence_hashes = insert_evidence name hash tx.payload.evidence_hashes;
        })
        tx

  -- `fail_transaction`, before the transaction is persisted.
  unfoldable pub mark_failed : String → List String → DurableTransaction → DurableTransaction
  mark_failed primary secondary tx =
      reseal
        (record tx.payload {
          failed_from_stage = some tx.payload.stage;
          primary_error = some primary;
          secondary_errors = tx.payload.secondary_errors ++ secondary;
          stage = TransactionStage.failed;
        })
        tx
