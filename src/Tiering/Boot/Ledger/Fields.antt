-- ===== src/Tiering/Boot/Ledger/Fields.antt =====
-- The fields of the payload that the methods of the transaction leave alone
-- (crates/tiering/src/boot_validation_v6.rs).
use nemor.Base.{◌≡◌, refl, String, Option, none, some, List, Bool-cases, inl, inr}
use nemor.Tiering.Boot.Stages.{TransactionStage, legal_transition}
use nemor.Tiering.Boot.Ledger.{
  DurableTransaction, DurableTransactionPayload, MutationRecord, is_sealed, validate, transition,
  with_records, complete_last, complete_last_of,
}

module _ (seal : DurableTransactionPayload → String) where
  pub validate-same : (tx : DurableTransaction) → (validate seal tx).0 ≡ tx
  unfolding validate
  validate-same tx = elim (Bool-cases (is_sealed seal tx)) [
    | inl sealed ↦ rw sealed
    | inr broken ↦ rw broken
  ]

  with_records-stage :
      (records : Option (List MutationRecord)) (tx : DurableTransaction)
      → (with_records seal records tx).0.payload.stage ≡ tx.payload.stage
  unfolding with_records
  with_records-stage none tx = refl
  with_records-stage (some records) tx = refl

  with_records-evidence_hashes :
      (records : Option (List MutationRecord)) (tx : DurableTransaction)
      → (with_records seal records tx).0.payload.evidence_hashes ≡ tx.payload.evidence_hashes
  unfolding with_records
  with_records-evidence_hashes none tx = refl
  with_records-evidence_hashes (some records) tx = refl

  pub complete_last-stage :
      (hash : String) (tx : DurableTransaction)
      → (complete_last seal hash tx).0.payload.stage ≡ tx.payload.stage
  unfolding complete_last
  complete_last-stage hash tx =
      with_records-stage (complete_last_of hash tx.payload.mutation_records) tx

  pub complete_last-evidence_hashes :
      (hash : String) (tx : DurableTransaction)
      → (complete_last seal hash tx).0.payload.evidence_hashes ≡ tx.payload.evidence_hashes
  unfolding complete_last
  complete_last-evidence_hashes hash tx =
      with_records-evidence_hashes (complete_last_of hash tx.payload.mutation_records) tx

  pub transition-evidence_hashes :
      (to : TransactionStage) (tx : DurableTransaction)
      → (transition seal to tx).0.payload.evidence_hashes ≡ tx.payload.evidence_hashes
  unfolding transition validate
  transition-evidence_hashes to tx = elim (Bool-cases (is_sealed seal tx)) [
    | inl sealed ↦ elim (Bool-cases (legal_transition tx.payload.stage to)) [
      | inl legal ↦ rw (sealed, legal)
      | inr illegal ↦ rw (sealed, illegal)
    ]
    | inr broken ↦ rw broken
  ]
