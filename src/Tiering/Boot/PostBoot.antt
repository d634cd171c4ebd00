-- ===== src/Tiering/Boot/PostBoot.antt =====
-- The collection and the validation of the measurements of the experimental boot
-- (crates/tiering/src/boot_validation_v6.rs).
use nemor.Base.{
  ℕ, Bool, true, false, not, ◌||◌, String, Option, none, some, List, [], ◌∷◌, ◌==◌, leb, str_eq,
  pairs_eq, any, is_some, if◌then◌else◌, Result, ok,
}
use nemor.Base.Chars.{codes, strip_prefix}
use nemor.Base.Exec.{◌>>=◌, ◌>>◌, pure, need, query, refuse}
use nemor.Tiering.Boot.Types.{
  BootValidationError, measurement, readback, PreparedManifest, SwapIdentity,
}
use nemor.Tiering.Boot.Observations.{
  ActualPostBootObservation, RuntimeObserveOnlyEvidence, RuntimeBinaryIdentity,
}
use nemor.Tiering.Boot.Equality.{is_sha256, contains_text, ℤ_eq, bool_eq, zram_eq, topology_eq}
use nemor.Tiering.Boot.Stages.{TransactionStage}
use nemor.Tiering.Boot.Interface.{BootLifecycleBackend, Serializer, Document}
use nemor.Tiering.Boot.Ledger.{DurableTransaction, PostBootSummary, reseal}
use nemor.Tiering.Boot.Operations.{validated}
use nemor.Tiering.Boot.Lifecycle.{Boot, in_stage, change, seal_of, or_fail, advance, keep_evidence}

abbrev pub is_zero : Option ℕ → Bool
is_zero none = false
is_zero (some v) = v == 0

abbrev pub above : ℕ → Option ℕ → Bool
above bound none = false
above bound (some v) = not (leb v bound)

abbrev pub within : ℕ → Option ℕ → Bool
within bound none = false
within bound (some v) = leb v bound

abbrev pub or_zero : Option ℕ → ℕ
or_zero none = 0
or_zero (some v) = v

abbrev pub is_absolute : String → Bool
is_absolute path = is_some (strip_prefix (codes "/") (codes path))

abbrev bad_binary : Option RuntimeBinaryIdentity → Bool
bad_binary none = false
bad_binary (some binary) =
    not (is_absolute binary.path)
    || (not (is_sha256 binary.sha256) || ((binary.pid == 0) || (binary.start_ticks == 0)))

abbrev is_empty : List String → Bool
is_empty [] = true
is_empty (_ ∷ _) = false

abbrev pub find_swap : String → List SwapIdentity → Option SwapIdentity
find_swap path [] = none
find_swap path (swap ∷ swaps) = if str_eq swap.path path then some swap else find_swap path swaps

unfoldable pub bad_runtime : RuntimeObserveOnlyEvidence → Bool
bad_runtime r =
    any (λ bad. bad)
      (not r.configured_observe_only
        ∷ (r.production_activation
            ∷ (not r.production_tiering_unit_absent
                ∷ (not (bool_eq r.nemord_active (is_some r.nemord_binary))
                    ∷ (not (is_some r.effective_mode)
                        ∷ (bad_binary r.nemord_binary
                            ∷ (not (is_empty r.unexpected_nemor_units)
                                ∷ (not (is_empty r.unexpected_nemor_cgroups) ∷ []))))))))

abbrev unattributed : String → Bool
unattributed text = not (
    str_eq text "physical-device-host-wide-noisy"
    || str_eq text "bounded-physical-device-attributed")

-- The last gate, its conditions in the source's order but for those of the runtime observation,
-- which are together; the result is the same, since none has an effect.
unfoldable pub safety_gate_fails :
    PreparedManifest → SwapIdentity → ActualPostBootObservation → Bool
unfolding bad_runtime
safety_gate_fails manifest swap o =
    let p = manifest.payload in
    any (λ bad. bad)
      (not swap.active
        ∷ (not (ℤ_eq swap.priority p.swapfile.priority)
            ∷ (not o.workload_completed
                ∷ (o.workload_timeout
                    ∷ (not o.workload_ready
                        ∷ (not o.workload_started
                            ∷ (not o.workload_stopped
                                ∷ ((o.workload_pid == 0)
                                    ∷ ((o.workload_start_ticks == 0)
                                        ∷ (str_eq o.cgroup_path ""
                                            ∷ ((o.progress_steps == 0)
                                                ∷ ((o.bytes_touched == 0)
                                                    ∷ (not o.refault_content_verified
                                                        ∷ [])))))))))))))
    || any (λ bad. bad)
        (not (is_zero o.cgroup_oom_delta)
          ∷ (not (is_zero o.cgroup_oom_kill_delta)
              ∷ (unattributed o.block_write_attribution
                  ∷ (not (is_some o.block_write_bytes)
                      ∷ (not (is_some o.latency_ns)
                          ∷ (not (is_some o.throughput_bytes_per_second)
                              ∷ (not (is_some o.compression_ratio_milli)
                                  ∷ (not o.refault_observed
                                      ∷ (above p.workload.maximum_write_bytes o.block_write_bytes
                                          ∷ (o.oom
                                              ∷ (o.oom_kill
                                                  ∷ (not o.daemon_observe_only
                                                      ∷ (bad_runtime o.runtime_observation
                                                          ∷ (o.production_activation
                                                            ∷ []))))))))))))))

unfoldable pub summary_of : PreparedManifest → ActualPostBootObservation → PostBootSummary
summary_of manifest o = record {
  backing_write_bytes = or_zero o.block_write_bytes;
  latency_ns = or_zero o.latency_ns;
  write_budget_passed = within manifest.payload.workload.maximum_write_bytes o.block_write_bytes;
  oom = o.oom || o.oom_kill;
  safety_failure =
      o.production_activation || (not o.daemon_observe_only || not o.workload_completed);
  backing_write_confidence = o.block_write_attribution;
}

module _ {B : Type 0} (backend : BootLifecycleBackend B) (serial : Serializer) where
  abbrev pub set_summary : PostBootSummary → DurableTransaction → DurableTransaction
  set_summary summary tx =
      reseal (seal_of backend serial) (record tx.payload { post_boot_summary = some summary }) tx

module _ {B : Type 0} (backend : BootLifecycleBackend B) (serial : Serializer)
    (check_manifest : PreparedManifest → Result BootValidationError (Unit {0})) where
  unfoldable pub validate_actual_post_boot :
      PreparedManifest → ActualPostBootObservation → Boot B (Unit {0})
  unfolding safety_gate_fails
  validate_actual_post_boot manifest o = do
    validated backend serial check_manifest manifest
    tx ← query (λ w. ok w.0)
    refuse
        (not (str_eq o.schema "tiering-post-boot-evidence-v6")
          || (not (in_stage tx.payload.stage TransactionStage.post_boot_measuring)
              || str_eq o.boot_id tx.payload.baseline_boot_id))
        (measurement "boot identity")
    refuse
        (not (str_eq o.booted_entry manifest.payload.experimental_entry.id)
          || (not (str_eq o.kernel_release manifest.payload.boot.kernel_release)
              || (not (str_eq o.command_line manifest.payload.experimental_entry.options)
                  || not (
                      contains_text (codes o.command_line)
                        (codes manifest.payload.validation_marker)))))
        (measurement "boot readback")
    refuse
        (not (pairs_eq o.zswap.parameters manifest.payload.experimental_zswap)
          || (not (zram_eq o.protected_zram manifest.payload.protected_zram)
              || (not (topology_eq o.topology manifest.payload.topology)
                  || (not o.unit_active || not o.workload_scope_absent))))
        (measurement "runtime identity")
    swap ← need (find_swap manifest.payload.swapfile.path o.swaps) (measurement "swap absent")
    refuse (safety_gate_fails manifest swap o) (measurement "safety or measurement gate")

  unfoldable pub collect_and_validate_post_boot :
      PreparedManifest → Boot B ActualPostBootObservation
  unfolding advance or_fail validate_actual_post_boot keep_evidence summary_of
  collect_and_validate_post_boot manifest = do
    tx ← query (λ w. ok w.0)
    refuse (not (in_stage tx.payload.stage TransactionStage.activation_verified))
        BootValidationError.transition
    helper ← query (λ w. ok (backend.staged_helper_matches w.1 manifest.payload.staged_helper))
    refuse (not helper) (readback "staged helper after reboot")
    advance backend serial TransactionStage.post_boot_measuring
    o ← or_fail backend serial (backend.collect_post_boot manifest)
    validate_actual_post_boot manifest o
    keep_evidence backend serial "post-boot-evidence-v6.json" (Document.post_boot_json o)
        "persist post-boot evidence"
    change (set_summary backend serial (summary_of manifest o))
    advance backend serial TransactionStage.post_boot_validated
    pure o
