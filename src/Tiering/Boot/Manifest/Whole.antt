-- ===== src/Tiering/Boot/Manifest/Whole.antt =====
-- The checks of a manifest, all together (crates/tiering/src/boot_validation_v6.rs).
use nemor.Base.{
  ℕ, ◌/◌, ◌%◌, Bool, true, false, not, ◌&&◌, ◌||◌, String, ◌+++◌, Option, none, some, List, [], ◌∷◌,
  ◌++◌, ◌==◌, any, is_some, is_some_and, str_eq, if◌then◌else◌, Result,
}
use nemor.Tiering.Boot.Types.{
  BootValidationError, identity, PreparedManifest, PreparedManifestPayload, BinaryIdentity,
}
use nemor.Tiering.Boot.Equality.{is_sha256}
use nemor.Tiering.Boot.Interface.{Serializer, Document}
use nemor.Tiering.Boot.PostBoot.{is_absolute}
use nemor.Tiering.Boot.Manifest.{
  Checks, first_error, is_commit, valid_id, topology_checks, zswap_checks, swap_checks,
  baseline_checks, artifact_checks, workload_checks,
}
use nemor.Tiering.Boot.Manifest.Entries.{entry_checks, reference_checks, content_checks}

abbrev bad_binary : String → String × BinaryIdentity → Bool
bad_binary commit (name, b) =
    not (is_absolute b.path) || (not (is_sha256 b.sha256) || not (str_eq b.embedded_commit commit))

abbrev no_binaries : List (String × BinaryIdentity) → Bool
no_binaries [] = true
no_binaries (_ ∷ _) = false

abbrev find_binary : String → List (String × BinaryIdentity) → Option BinaryIdentity
find_binary name [] = none
find_binary name ((key, b) ∷ rest) = if str_eq key name then some b else find_binary name rest

abbrev binary_eq : BinaryIdentity → BinaryIdentity → Bool
binary_eq a b =
    str_eq a.path b.path && (str_eq a.sha256 b.sha256 && str_eq a.embedded_commit b.embedded_commit)

-- `mode & 0o022 != 0`.
abbrev writable_by_others : ℕ → Bool
writable_by_others mode = (mode / 2 % 2 == 1) || (mode / 16 % 2 == 1)

unfoldable pub helper_checks : PreparedManifestPayload → Checks
helper_checks p =
    let validator = find_binary "nemor-tiering-boot-validation" p.binaries in
    (no_binaries p.binaries || any (bad_binary p.source_commit) p.binaries, identity "binary")
    ∷ ((not (is_some validator), identity "validator binary")
        ∷ ((
          not (is_some_and validator (binary_eq p.staged_helper.source))
              || (not (
                    str_eq p.staged_helper.destination
                      (p.transaction_root +++ "/bin/nemor-tiering-boot-validation"))
                  || (not (p.staged_helper.destination_mode == 493)
                      || (not (p.staged_helper.destination_uid == 0)
                          || (not (p.staged_helper.destination_gid == 0)
                              || (not p.staged_helper.require_single_link
                                  || (not (p.staged_helper.source_link_count == 1)
                                      || (writable_by_others p.staged_helper.source_mode
                                          || ((p.staged_helper.source_device == 0)
                                              || (p.staged_helper.source_inode == 0))))))))),
          identity "staged helper",
        )
            ∷ []))

module _ (serial : Serializer) where
  unfoldable pub header_checks : PreparedManifest → Checks
  header_checks manifest =
      let p = manifest.payload in
      (
        not (str_eq manifest.schema "tiering-boot-prepared-manifest-v6")
            || (not (str_eq p.contract_version "tiering-boot-validation-v6")
                || not (str_eq p.rule_version "tiering-rules-v5-storage-profile-comparison")),
        BootValidationError.version,
      )
      ∷ ((
        not (
            str_eq (serial.canonical_json_sha256 (Document.prepared_json p))
              manifest.payload_sha256),
        BootValidationError.payload,
      )
          ∷ ((not (valid_id p.validation_id) || not (is_commit p.source_commit), identity "source")
              ∷ ((
                not (str_eq p.validation_marker ("nemor.phase6_validation=" +++ p.validation_id))
                    || not (is_absolute p.config_path),
                identity "bounded inputs",
              )
                  ∷ ((
                    not (is_sha256 p.source_state_sha256)
                        || (not (is_sha256 p.config_sha256)
                            || not (is_sha256 p.material_environment_sha256)),
                    identity "hash",
                  )
                      ∷ []))))

  unfoldable pub recovery_checks : PreparedManifestPayload → Checks
  recovery_checks p =
      (
        p.production_activation
            || (not (str_eq p.recovery_entry p.boot.current_entry.id)
                || not (
                    str_eq p.transaction_root
                      ("/var/lib/nemor/validation/phase6/" +++ p.validation_id))),
        identity "recovery",
      )
      ∷ []

  unfoldable pub manifest_checks : PreparedManifest → Checks
  unfolding header_checks helper_checks topology_checks baseline_checks zswap_checks entry_checks
      reference_checks content_checks swap_checks recovery_checks artifact_checks workload_checks
  manifest_checks manifest =
      let p = manifest.payload in
      header_checks manifest
      ++ (helper_checks p
          ++ (topology_checks p.topology
              ++ (baseline_checks p
                  ++ (zswap_checks p
                      ++ (entry_checks p
                          ++ (reference_checks p
                              ++ (content_checks p
                                  ++ (swap_checks p
                                      ++ (recovery_checks p
                                          ++ (artifact_checks serial p [] p.owned_artifacts
                                              ++ workload_checks serial p))))))))))

  -- `validate` of a manifest.
  unfoldable pub check_manifest : PreparedManifest → Result BootValidationError (Unit {0})
  unfolding first_error manifest_checks
  check_manifest manifest = first_error (manifest_checks manifest)
