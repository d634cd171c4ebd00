-- ===== src/Tiering/Boot/Manifest/Entries.antt =====
-- The checks of the boot entries of a manifest, and the texts of its files
-- (crates/tiering/src/boot_validation_v6.rs).
use nemor.Base.{
  Bool, true, false, not, ◌&&◌, ◌||◌, String, ◌+++◌, List, [], ◌∷◌, ◌==◌, map, any, find, is_some,
  is_some_and, is_empty, str_eq, strs_eq, contains_str,
}
use nemor.Base.Chars.{codes, chars_eq}
use nemor.Tiering.Boot.Types.{
  BootValidationError, identity, PreparedManifestPayload, BootEntryIdentity, ReferencedBootFile,
  OwnedArtifact, OwnedArtifactKind,
}
use nemor.Tiering.Boot.Equality.{contains_text, is_sha256}
use nemor.Tiering.Boot.Manifest.{Checks, utf8, is_helper_kind}

abbrev initrd_lines : List String → String
initrd_lines [] = ""
initrd_lines (initrd ∷ initrds) = "initrd " +++ (initrd +++ ("\n" +++ initrd_lines initrds))

unfoldable pub render_type1_entry : BootEntryIdentity → String
render_type1_entry entry =
    "title "
    +++ (entry.title
        +++ ("\nlinux "
            +++ (entry.linux_or_efi
                +++ ("\n"
                    +++ (initrd_lines entry.initrds
                        +++ ("options " +++ (entry.options +++ "\n")))))))

unfoldable pub render_validation_unit : PreparedManifestPayload → String → String
render_validation_unit p validator =
    "[Unit]\nDescription=Nemor Phase 6 validation-only activation\nConditionKernelCommandLine="
    +++ (p.validation_marker
        +++ ("\nAfter=systemd-udev-settle.service dev-zram0.swap\n\n[Service]\nType=oneshot\nExecStart="
            +++ (validator
                +++ (" experimental-activate --validation-id "
                    +++ (p.validation_id
                        +++ ("\nRemainAfterExit=yes\nNoNewPrivileges=yes\nProtectSystem=strict\nProtectHome=yes\nPrivateTmp=yes\nReadWritePaths="
                            +++ (p.transaction_root
                                +++ " /sys/module/zswap/parameters\n\n[Install]\nWantedBy=multi-user.target\n")))))))

abbrev has_text_in : String → String → Bool
has_text_in text part = contains_text (codes text) (codes part)

abbrev is_entry : OwnedArtifact → Bool
is_entry a = entry_kind a.kind
  where
    entry_kind : OwnedArtifactKind → Bool
    entry_kind OwnedArtifactKind.type1_entry = true
    entry_kind _ = false

abbrev is_unit : OwnedArtifact → Bool
is_unit a = unit_kind a.kind
  where
    unit_kind : OwnedArtifactKind → Bool
    unit_kind OwnedArtifactKind.validation_unit = true
    unit_kind _ = false

abbrev is_helper_artifact : OwnedArtifact → Bool
is_helper_artifact a = is_helper_kind a.kind

unfoldable pub entry_checks : PreparedManifestPayload → Checks
entry_checks p =
    (
      not (str_eq p.boot.bootloader "systemd-boot-type1")
          || (not (str_eq p.boot.secure_boot "disabled")
              || (str_eq p.boot.current_entry.id ""
                  || (str_eq p.boot.default_entry.id ""
                      || (is_some p.boot.prior_one_shot
                          || (not (is_sha256 p.boot.current_entry.sha256)
                              || (not (is_sha256 p.boot.default_entry.sha256)
                                  || (str_eq p.experimental_entry.id p.boot.current_entry.id
                                      || (str_eq p.experimental_entry.id p.boot.default_entry.id
                                          || not (
                                              str_eq p.experimental_entry.path (
                                                "/boot/loader/entries/nemor-phase6-"
                                                +++ (p.validation_id +++ ".conf"))))))))))),
      BootValidationError.entry,
    )
    ∷ ((
      not (str_eq p.experimental_entry.linux_or_efi p.boot.current_entry.linux_or_efi)
          || (not (strs_eq p.experimental_entry.initrds p.boot.current_entry.initrds)
              || (not (has_text_in p.experimental_entry.options p.validation_marker)
                  || (not (has_text_in p.experimental_entry.options "zswap.enabled=1")
                      || not (
                          has_text_in p.experimental_entry.options (
                            "systemd.wants=nemor-phase6-" +++ (p.validation_id +++ ".service")))))),
      BootValidationError.entry,
    )
        ∷ [])

abbrev referenced_paths : PreparedManifestPayload → List String
referenced_paths p = map (λ (r : ReferencedBootFile). r.path) p.boot.referenced_files

unfoldable pub reference_checks : PreparedManifestPayload → Checks
reference_checks p =
    (
      not (contains_str (referenced_paths p) p.experimental_entry.linux_or_efi)
          || (any (λ initrd. not (contains_str (referenced_paths p) initrd))
                p.experimental_entry.initrds
              || any (λ (r : ReferencedBootFile). not (is_sha256 r.sha256))
                  p.boot.referenced_files),
      BootValidationError.entry,
    )
    ∷ []

unfoldable pub content_checks : PreparedManifestPayload → Checks
unfolding render_type1_entry render_validation_unit
content_checks p =
    let entry = find is_entry p.owned_artifacts in
    let unit = find is_unit p.owned_artifacts in
    let helper = find is_helper_artifact p.owned_artifacts in
    (
      not (
          is_some_and entry (λ (a : OwnedArtifact).
            chars_eq a.content (utf8 (codes (render_type1_entry p.experimental_entry))))),
      BootValidationError.entry,
    )
    ∷ ((
      not (is_some_and entry (λ (a : OwnedArtifact). str_eq a.sha256 p.experimental_entry.sha256)),
      BootValidationError.entry,
    )
        ∷ ((not (is_some unit), BootValidationError.entry)
            ∷ ((
              not (
                  is_some_and helper (λ (a : OwnedArtifact).
                    str_eq a.path p.staged_helper.destination
                    && (str_eq a.sha256 p.staged_helper.source.sha256
                        && ((a.mode == 493) && is_empty a.content)))),
              identity "staged helper artifact",
            )
                ∷ ((
                  not (
                      is_some_and unit (λ (a : OwnedArtifact).
                        chars_eq a.content
                          (utf8 (codes (render_validation_unit p p.staged_helper.destination))))),
                  BootValidationError.entry,
                )
                    ∷ []))))
