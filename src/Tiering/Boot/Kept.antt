-- ===== src/Tiering/Boot/Kept.antt =====
-- What the operations of the boot lifecycle keep, whether they succeed or fail
-- (crates/tiering/src/boot_validation_v6.rs).
pub mod Measurement
use nemor.Base.{
  ◌≡◌, refl, Bool, true, false, not, String, List, [], ◌∷◌, ◌++◌, reverse, Bool-cases, inl, inr,
  if◌then◌else◌, Result, ok, err, str_eq,
}
use nemor.Base.Exec.{◌>>=◌}
use nemor.Base.Exec.Keeps.{Keeps, Keeps-bind, Keeps-query, Keeps-when, Keeps-pure, keeps_rules}
use nemor.Tiering.Boot.Types.{BootValidationError, PreparedManifest, OwnedArtifact, SwapIdentity}
use nemor.Tiering.Boot.Interface.{BootLifecycleBackend, Serializer, Document}
use nemor.Tiering.Boot.Ledger.{DurableTransaction}
use nemor.Tiering.Boot.Lifecycle.{World, Boot, is_helper, seal_of, note_error, boot_unchanged}
use nemor.Tiering.Boot.Lifecycle.Stable.{
  IsStable, Of, unrecorded, on_host-Keeps, validate-Keeps, change-Keeps, persist-Keeps,
  fail_if-Keeps, or_fail-Keeps, finish_intent-Keeps, advance-Keeps, intend-Keeps,
  keep_evidence-Keeps, undo_and_fail-Keeps, failed-Keeps,
}
use nemor.Tiering.Boot.Operations.Valid.{validated-Keeps}
use nemor.Tiering.Boot.Operations.{validated, select_exact_one_shot, select_baseline_rollback}
use nemor.Tiering.Boot.Apply.{
  after_create, create_one, add_artifact, create_artifacts, set_swap, reject_swap, sync_or_undo,
  sync, keep_order, create_swap, apply_exact_transaction,
}
use nemor.Tiering.Boot.Cleanup.{
  remove_one, remove_artifacts, require_proven, observe_baseline, prove_baseline, remove_all,
  publish_authority, verify_then_cleanup,
}

module _ {B : Type 0} (backend : BootLifecycleBackend B) (serial : Serializer)
    (check_manifest : PreparedManifest → Result BootValidationError (Unit {0}))
    {Q : DurableTransaction → Type 0} (q : IsStable (seal_of backend serial) Q) where
  pub select_exact_one_shot-Keeps :
      (manifest : PreparedManifest)
      → Keeps (Of backend serial q) (select_exact_one_shot backend serial check_manifest manifest)
  unfolding select_exact_one_shot
  select_exact_one_shot-Keeps manifest =
      let evidenced = λ (d : Document) (f : String).
        keep_evidence-Keeps backend serial q "one-shot-evidence-v6.json" d f refl in
      search
        (
          keeps_rules,
          advance-Keeps backend serial q,
          intend-Keeps backend serial q,
          or_fail-Keeps backend serial q,
          fail_if-Keeps backend serial q,
          finish_intent-Keeps backend serial q,
          evidenced,
          validated-Keeps backend serial check_manifest q,
        )
        depth 40

  pub select_baseline_rollback-Keeps :
      (manifest : PreparedManifest)
      → Keeps (Of backend serial q) (select_baseline_rollback backend serial manifest)
  unfolding select_baseline_rollback
  select_baseline_rollback-Keeps manifest =
      search
        (
          keeps_rules,
          advance-Keeps backend serial q,
          intend-Keeps backend serial q,
          or_fail-Keeps backend serial q,
          fail_if-Keeps backend serial q,
          finish_intent-Keeps backend serial q,
        )
        depth 40

  after_create-Keeps :
      (manifest : PreparedManifest) (created : List OwnedArtifact) (artifact : OwnedArtifact)
      (made : Result String (Unit {0})) (w : World B)
      → Q w.0
      → Q (after_create backend serial manifest created artifact made w).0.0
  unfolding after_create
  after_create-Keeps manifest created artifact (err primary) w h =
      undo_and_fail-Keeps backend serial q manifest created primary [] w h
  after_create-Keeps manifest created artifact (ok _) (tx, b) h =
      elim (Bool-cases (backend.artifact_matches b artifact)) [
        | inl matches ↦ rw matches h
        | inr other ↦ rw other (undo_and_fail-Keeps backend serial q manifest created _ _ (tx, _) h)
      ]

  create_one-Keeps :
      (manifest : PreparedManifest) (created : List OwnedArtifact) (artifact : OwnedArtifact)
      → Keeps (Of backend serial q) (create_one backend serial manifest created artifact)
  unfolding create_one
  create_one-Keeps manifest created artifact = record {
    at = λ (tx, b) h.
        after_create-Keeps manifest created artifact (backend.create_artifact artifact b).1
          (tx, (backend.create_artifact artifact b).0) h;
  }

  add_artifact-Keeps :
      (manifest : PreparedManifest) (created : List OwnedArtifact) (artifact : OwnedArtifact)
      → Keeps (Of backend serial q) (add_artifact backend serial manifest created artifact)
  unfolding add_artifact
  add_artifact-Keeps manifest created artifact =
      Keeps-bind _ _ (intend-Keeps backend serial q _ _) λ _.
        Keeps-bind _ _ (create_one-Keeps manifest created artifact) λ _.
          Keeps-bind _ _ (finish_intent-Keeps backend serial q _)
            λ _. persist-Keeps backend serial q

  create_artifacts-Keeps :
      (manifest : PreparedManifest) (created artifacts : List OwnedArtifact)
      → Keeps (Of backend serial q) (create_artifacts backend serial manifest created artifacts)
  unfolding create_artifacts
  create_artifacts-Keeps manifest created [] = Keeps-pure _
  create_artifacts-Keeps manifest created (artifact ∷ artifacts) =
      Keeps-bind _ _ (Keeps-query _) (λ matches.
        Keeps-bind _ _ (fail_if-Keeps backend serial q _ _) (λ _.
          Keeps-bind _ _ (Keeps-when _ _ (add_artifact-Keeps manifest created artifact))
            (λ _. create_artifacts-Keeps manifest _ artifacts)))

  reject_swap-Keeps :
      (manifest : PreparedManifest)
      → Keeps (Of backend serial q) (reject_swap backend serial manifest)
  unfolding reject_swap
  reject_swap-Keeps manifest = record {
    at = λ (tx, b) h.
        let (b', secondary) = note_error (backend.remove_swapfile manifest b) [] in
        failed-Keeps backend serial q "created swap identity mismatch" secondary (tx, b') h;
  }

  sync_or_undo-Keeps :
      (manifest : PreparedManifest) (created : List OwnedArtifact) (r : Result String (Unit {0}))
      (w : World B)
      → Q w.0
      → Q (sync_or_undo backend serial manifest created r w).0.0
  unfolding sync_or_undo
  sync_or_undo-Keeps manifest created (ok _) w h = h
  sync_or_undo-Keeps manifest created (err primary) w h =
      undo_and_fail-Keeps backend serial q manifest created primary [] w h

  sync-Keeps :
      (manifest : PreparedManifest) (created : List OwnedArtifact)
      → Keeps (Of backend serial q) (sync backend serial manifest created)
  unfolding sync
  sync-Keeps manifest created = record {
    at = λ (tx, b) h.
        sync_or_undo-Keeps manifest created (backend.sync_parents manifest b).1
          (tx, (backend.sync_parents manifest b).0) h;
  }

  keep_order-Keeps :
      (manifest : PreparedManifest) (created : List OwnedArtifact)
      → Keeps (Of backend serial q) (keep_order backend serial manifest created)
  unfolding keep_order
  keep_order-Keeps manifest created = record {
    at = λ (tx, b) h. elim (Bool-cases (boot_unchanged backend serial manifest b)) [
      | inl same ↦ rw same h
      | inr other ↦ rw other (undo_and_fail-Keeps backend serial q manifest created _ [] (tx, b) h)
    ];
  }

  create_swap-Keeps :
      (manifest : PreparedManifest)
      → Keeps (Of backend serial q) (create_swap backend serial manifest)
  unfolding create_swap
  create_swap-Keeps manifest =
      let saved = persist-Keeps backend serial q in
      Keeps-bind _ _ (intend-Keeps backend serial q _ _) λ _.
        Keeps-bind _ _ (or_fail-Keeps backend serial q _) λ swap.
          Keeps-bind _ _ (change-Keeps backend serial q _ (q.swapped swap)) λ _.
            Keeps-bind _ _ saved λ _.
              Keeps-bind _ _ (Keeps-when _ _ (reject_swap-Keeps manifest))
                λ _. Keeps-bind _ _ (finish_intent-Keeps backend serial q _) λ _. saved

  pub apply_exact_transaction-Keeps :
      (manifest : PreparedManifest)
      → Keeps (Of backend serial q) (apply_exact_transaction backend serial check_manifest manifest)
  unfolding apply_exact_transaction
  apply_exact_transaction-Keeps manifest =
      let evidenced = λ (d : Document) (f : String).
        keep_evidence-Keeps backend serial q "apply-evidence-v6.json" d f refl in
      search
        (
          keeps_rules,
          evidenced,
          validated-Keeps backend serial check_manifest q,
          create_swap-Keeps,
          create_artifacts-Keeps,
          sync-Keeps,
          keep_order-Keeps,
          advance-Keeps backend serial q,
        )
        depth 30

  remove_one-Keeps :
      (artifact : OwnedArtifact) → Keeps (Of backend serial q) (remove_one backend serial artifact)
  unfolding remove_one
  remove_one-Keeps artifact = Keeps-bind _ _ (intend-Keeps backend serial q _ _) λ _.
      Keeps-bind _ _ (or_fail-Keeps backend serial q _) λ _.
        Keeps-bind _ _ (finish_intent-Keeps backend serial q _) λ _. persist-Keeps backend serial q

  remove_artifacts-Keeps :
      (artifacts : List OwnedArtifact)
      → Keeps (Of backend serial q) (remove_artifacts backend serial artifacts)
  unfolding remove_artifacts
  remove_artifacts-Keeps [] = Keeps-pure _
  remove_artifacts-Keeps (artifact ∷ artifacts) =
      Keeps-bind _ _ (remove_one-Keeps artifact) (λ _. remove_artifacts-Keeps artifacts)

  observe_baseline-Keeps :
      (manifest : PreparedManifest)
      → Keeps (Of backend serial q) (observe_baseline backend serial manifest)
  unfolding observe_baseline require_proven
  observe_baseline-Keeps manifest = search (keeps_rules) depth 20

  pub prove_baseline-Keeps :
      (manifest : PreparedManifest)
      → Keeps (Of backend serial q) (prove_baseline backend serial manifest)
  unfolding prove_baseline
  prove_baseline-Keeps manifest =
      let evidenced = λ (d : Document) (f : String).
        keep_evidence-Keeps backend serial q "baseline-restore-evidence-v6.json" d f refl in
      search (keeps_rules, evidenced, observe_baseline-Keeps, advance-Keeps backend serial q) depth
        20

  pub remove_all-Keeps :
      (manifest : PreparedManifest)
      → Keeps (Of backend serial q) (remove_all backend serial manifest)
  unfolding remove_all
  remove_all-Keeps manifest =
      search
        (
          keeps_rules,
          remove_artifacts-Keeps,
          advance-Keeps backend serial q,
          intend-Keeps backend serial q,
          or_fail-Keeps backend serial q,
          fail_if-Keeps backend serial q,
          finish_intent-Keeps backend serial q,
        )
        depth 20

  publish_authority-Keeps :
      (manifest : PreparedManifest)
      → Keeps (Of backend serial q) (publish_authority backend serial manifest)
  unfolding publish_authority
  publish_authority-Keeps manifest =
      let baseline = λ (d : Document) (f : String).
        keep_evidence-Keeps backend serial q "same-host-zram-baseline-v2.json" d f refl in
      let profile = λ (d : Document) (f : String).
        keep_evidence-Keeps backend serial q "same-host-profile-v6.json" d f refl in
      search
        (
          keeps_rules,
          baseline,
          profile,
          advance-Keeps backend serial q,
          on_host-Keeps backend serial q,
        )
        depth 20

  pub verify_then_cleanup-Keeps :
      (manifest : PreparedManifest)
      → Keeps (Of backend serial q) (verify_then_cleanup backend serial manifest)
  unfolding verify_then_cleanup
  verify_then_cleanup-Keeps manifest =
      search (keeps_rules, prove_baseline-Keeps, remove_all-Keeps, publish_authority-Keeps) depth 10
