-- ===== src/Tiering/Boot/Kept/Measurement.antt =====
-- What the measurements of the baseline and of the experimental boot keep
-- (crates/tiering/src/boot_validation_v6.rs).
use nemor.Base.{refl, String, Result}
use nemor.Base.Exec.Keeps.{Keeps, Keeps-bind, Keeps-query, keeps_rules}
use nemor.Tiering.Boot.Types.{BootValidationError, PreparedManifest}
use nemor.Tiering.Boot.Observations.{ActualPostBootObservation, PreflightObservation}
use nemor.Tiering.Boot.Interface.{BootLifecycleBackend, Serializer, Document}
use nemor.Tiering.Boot.Ledger.{DurableTransaction, PostBootSummary}
use nemor.Tiering.Boot.Lifecycle.{seal_of}
use nemor.Tiering.Boot.Lifecycle.Stable.{
  IsStable, Of, on_host-Keeps, change-Keeps, persist-Keeps, fail_if-Keeps, or_fail-Keeps,
  finish_intent-Keeps, advance-Keeps, intend-Keeps, keep_evidence-Keeps,
}
use nemor.Tiering.Boot.Operations.Valid.{validated-Keeps}
use nemor.Tiering.Boot.PostBoot.{
  validate_actual_post_boot, set_summary, collect_and_validate_post_boot,
}
use nemor.Tiering.Boot.Initialize.{stage_baseline_helper, measure_baseline, bootstrap}

module _ {B : Type 0} (backend : BootLifecycleBackend B) (serial : Serializer)
    {Q : DurableTransaction → Type 0} (q : IsStable (seal_of backend serial) Q) where
  stage_baseline_helper-Keeps :
      (manifest : PreparedManifest)
      → Keeps (Of backend serial q) (stage_baseline_helper backend serial manifest)
  unfolding stage_baseline_helper
  stage_baseline_helper-Keeps manifest = Keeps-bind _ _ (intend-Keeps backend serial q _ _) λ _.
      Keeps-bind _ _ (or_fail-Keeps backend serial q _) λ _. Keeps-bind _ _ (Keeps-query _) λ _.
        Keeps-bind _ _ (fail_if-Keeps backend serial q _ _) λ _.
          Keeps-bind _ _ (finish_intent-Keeps backend serial q _)
            λ _. persist-Keeps backend serial q

  measure_baseline-Keeps :
      (manifest : PreparedManifest)
      → Keeps (Of backend serial q) (measure_baseline backend serial manifest)
  unfolding measure_baseline
  measure_baseline-Keeps manifest =
      let evidenced = λ (d : Document) (f : String).
        keep_evidence-Keeps backend serial q "zram-baseline-evidence-v4.json" d f refl in
      search
        (
          keeps_rules,
          evidenced,
          advance-Keeps backend serial q,
          or_fail-Keeps backend serial q,
          fail_if-Keeps backend serial q,
        )
        depth 20

  pub bootstrap-Keeps :
      (manifest : PreparedManifest) (root_preflight : PreflightObservation)
      → Keeps (Of backend serial q) (bootstrap backend serial manifest root_preflight)
  unfolding bootstrap
  bootstrap-Keeps manifest root_preflight = Keeps-bind _ _ (on_host-Keeps backend serial q _ _) λ _.
      Keeps-bind _ _ (on_host-Keeps backend serial q _ _) λ _.
        Keeps-bind _ _ (persist-Keeps backend serial q) λ _.
          Keeps-bind _ _ (keep_evidence-Keeps backend serial q "root-preflight-v6.json" _ _ refl)
            λ _. Keeps-bind _ _ (advance-Keeps backend serial q _) λ _.
              Keeps-bind _ _ (stage_baseline_helper-Keeps manifest)
                λ _. measure_baseline-Keeps manifest

  module _ (check_manifest : PreparedManifest → Result BootValidationError (Unit {0})) where
    validate_actual_post_boot-Keeps :
        (manifest : PreparedManifest) (o : ActualPostBootObservation)
        → Keeps
            (Of backend serial q)
            (validate_actual_post_boot backend serial check_manifest manifest o)
    unfolding validate_actual_post_boot
    validate_actual_post_boot-Keeps manifest o =
        search (keeps_rules, validated-Keeps backend serial check_manifest q) depth 20

    pub collect_and_validate_post_boot-Keeps :
        (manifest : PreparedManifest)
        → Keeps
            (Of backend serial q)
            (collect_and_validate_post_boot backend serial check_manifest manifest)
    unfolding collect_and_validate_post_boot
    collect_and_validate_post_boot-Keeps manifest =
        let evidenced = λ (d : Document) (f : String).
          keep_evidence-Keeps backend serial q "post-boot-evidence-v6.json" d f refl in
        let summarised = λ (s : PostBootSummary).
          change-Keeps backend serial q (set_summary backend serial s) (q.summarised s) in
        search
          (
            keeps_rules,
            evidenced,
            summarised,
            validate_actual_post_boot-Keeps,
            advance-Keeps backend serial q,
            or_fail-Keeps backend serial q,
          )
          depth 30
