-- ===== src/Tiering/Boot/Manifest.antt =====
-- The checks of a prepared manifest (crates/tiering/src/boot_validation_v6.rs). A function that
-- checks is the list of its conditions with their errors, in the order of the source; the first
-- condition that holds gives the error.
pub mod Entries
pub mod Whole
pub mod Checked
use nemor.Base.{
  ℕ, ◌+◌, ◌*◌, ◌/◌, ◌%◌, ◌<◌, Bool, true, false, not, ◌&&◌, ◌||◌, String, ◌+++◌, Option, none, some,
  List, [], ◌∷◌, ◌++◌, ◌==◌, ltb, leb, map, any, all, length, is_some, is_some_and, is_empty,
  str_eq, opt_str_eq, strs_eq, contains_str, is_blank, if◌then◌else◌, Result, ok, err,
}
use nemor.Base.Chars.{Chars, codes, chars_eq, strip_prefix, split_on, trim}
use nemor.Base.Integer.{ℤ, pos, leb_ℤ}
use nemor.Tiering.Boot.Types.{
  BootValidationError, identity, PreparedManifest, PreparedManifestPayload, StorageTopologyIdentity,
  StorageProfile, SwapIdentity, BinaryIdentity, BootEntryIdentity, OwnedArtifact, OwnedArtifactKind,
  BlockLayerIdentity,
}
use nemor.Tiering.Boot.Equality.{contains_text, is_hexdigit, is_sha256, ℤ_eq}
use nemor.Tiering.Boot.Interface.{Serializer, Document}
use nemor.Tiering.Boot.PostBoot.{is_absolute}
use nemor.Tiering.Topology.{boot_supported}

abbrev pub Checks : Type 0
Checks = List (Bool × BootValidationError)

unfoldable pub first_error : Checks → Result BootValidationError (Unit {0})
first_error [] = ok tt
first_error ((bad, error) ∷ checks) = if bad then err error else first_error checks

abbrev pub is_commit : String → Bool
is_commit value = (length (codes value) == 40) && all is_hexdigit (codes value)

abbrev is_id_char : ℕ → Bool
is_id_char c = (leb 97 c && leb c 122) || ((leb 48 c && leb c 57) || (c == 45))

abbrev pub valid_id : String → Bool
valid_id value =
    leb 8 (length (codes value)) && (leb (length (codes value)) 64 && all is_id_char (codes value))

-- `into_bytes()`.
abbrev utf8_char : ℕ → List ℕ
utf8_char c =
    if ltb c 128
    then c ∷ []
    else if ltb c 2048
    then (192 + c / 64) ∷ ((128 + c % 64) ∷ [])
    else if ltb c 65536
    then (224 + c / 4096) ∷ ((128 + c / 64 % 64) ∷ ((128 + c % 64) ∷ []))
    else (240 + c / 262144)
      ∷ ((128 + c / 4096 % 64) ∷ ((128 + c / 64 % 64) ∷ ((128 + c % 64) ∷ [])))

abbrev pub utf8 : Chars → List ℕ
utf8 [] = []
utf8 (c ∷ cs) = utf8_char c ++ utf8 cs

abbrev has_text : Option String → Bool
has_text none = false
has_text (some v) = not (str_eq v "")

abbrev transport_ok : StorageProfile → String → Bool
transport_ok StorageProfile.nvme_ssd transport = str_eq transport "nvme"
transport_ok StorageProfile.sata_ssd transport = str_eq transport "ata" || str_eq transport "sata"
transport_ok _ transport = false

abbrev ends_in : List BlockLayerIdentity → String → Bool
ends_in [] path = false
ends_in (layer ∷ []) path = str_eq layer.path path
ends_in (_ ∷ (layer ∷ layers)) path = ends_in (layer ∷ layers) path

-- `trim().is_empty()`.
abbrev is_blank_text : String → Bool
is_blank_text text = is_empty (trim (codes text))

abbrev no_layers : List BlockLayerIdentity → Bool
no_layers [] = true
no_layers (_ ∷ _) = false

unfoldable pub topology_checks : StorageTopologyIdentity → Checks
topology_checks t =
    (
      not (str_eq t.storage_profile_version "nemor-storage-profile-v1")
          || (not (boot_supported t.profile)
              || (no_layers t.chain
                  || (t.composite
                      || (t.ambiguous
                          || (t.physical.rotational
                              || ((t.physical.capacity_bytes == 0)
                                  || ((t.physical.logical_block_size == 0)
                                      || ((t.physical.physical_block_size == 0)
                                          || (is_blank_text t.filesystem.uuid_or_fsid
                                              || not (str_eq t.filesystem.mount_point "/")))))))))),
      BootValidationError.topology,
    )
    ∷ ((
      not (has_text t.physical.serial || has_text t.physical.wwn)
          || not (str_eq t.confidence "high"),
      BootValidationError.topology,
    )
        ∷ ((
          not (transport_ok t.profile t.physical.transport)
              || not (ends_in t.chain t.physical.path),
          BootValidationError.topology,
        )
            ∷ []))

abbrev pub lookup : String → List (String × String) → Option String
lookup key [] = none
lookup key ((k, v) ∷ rest) = if str_eq k key then some v else lookup key rest

abbrev pub zswap_names : List String
zswap_names =
    "enabled"
    ∷ ("compressor"
        ∷ ("zpool"
            ∷ ("max_pool_percent" ∷ ("accept_threshold_percent" ∷ ("shrinker_enabled" ∷ [])))))

abbrev tuned_names : List String
tuned_names =
    "compressor"
    ∷ ("zpool" ∷ ("max_pool_percent" ∷ ("accept_threshold_percent" ∷ ("shrinker_enabled" ∷ []))))

abbrev opt_eq : Option String → Option String → Bool
opt_eq none none = true
opt_eq (some a) (some b) = str_eq a b
opt_eq _ _ = false

unfoldable pub zswap_checks : PreparedManifestPayload → Checks
zswap_checks p =
    (
      any (λ (entry : String × String). not (contains_str zswap_names entry.0)) p.experimental_zswap
          || (not (opt_eq (lookup "enabled" p.experimental_zswap) (some "Y"))
              || not (length p.experimental_zswap == 6)),
      BootValidationError.zswap,
    )
    ∷ ((
      any
          (λ name.
            not
              (opt_eq (lookup name p.experimental_zswap) (lookup name p.baseline_zswap.parameters)))
          tuned_names,
      BootValidationError.zswap,
    )
        ∷ [])

unfoldable pub swap_checks : PreparedManifestPayload → Checks
swap_checks p =
    (
      not (str_eq p.swapfile.path (p.transaction_root +++ "/backing.swap"))
          || (p.swapfile.active
              || (is_some p.swapfile.uuid
                  || (not (str_eq p.swapfile.kind "file")
                      || (ltb p.swapfile.size_bytes (64 * 1024 * 1024)
                          || (ltb (2 * 1024 * 1024 * 1024) p.swapfile.size_bytes
                              || (leb_ℤ p.swapfile.priority p.protected_zram.priority
                                  || (not (leb_ℤ p.swapfile.priority (pos 32767))
                                      || (not (str_eq p.protected_zram.device "/dev/zram0")
                                          || not p.protected_zram.active)))))))),
      BootValidationError.swap,
    )
    ∷ []

abbrev has_duplicate : List String → Bool
has_duplicate [] = false
has_duplicate (path ∷ paths) = contains_str paths path || has_duplicate paths

abbrev is_protected : PreparedManifestPayload → SwapIdentity → Bool
is_protected p swap =
    str_eq swap.path p.protected_zram.device
    && (ℤ_eq swap.priority p.protected_zram.priority
        && (swap.size_bytes == p.protected_zram.disksize_bytes))

unfoldable pub baseline_checks : PreparedManifestPayload → Checks
baseline_checks p =
    (
      any (λ name. not (is_some (lookup name p.baseline_zswap.parameters))) zswap_names,
      BootValidationError.zswap,
    )
    ∷ ((
      any (λ (swap : SwapIdentity). not swap.active || str_eq swap.path p.swapfile.path)
            p.baseline_swaps
          || (has_duplicate (map (λ (swap : SwapIdentity). swap.path) p.baseline_swaps)
              || not (any (is_protected p) p.baseline_swaps)),
      identity "baseline swaps",
    )
        ∷ [])

abbrev has_parent_dir : String → Bool
has_parent_dir path = any (λ part. chars_eq part (codes "..")) (split_on 47 (codes path))

-- `starts_with`, by components.
abbrev at_component_end : Option Chars → Bool
at_component_end none = false
at_component_end (some []) = true
at_component_end (some (c ∷ cs)) = c == 47

abbrev is_under : String → String → Bool
is_under root path = at_component_end (strip_prefix (codes root) (codes path))

abbrev expected_path : PreparedManifestPayload → OwnedArtifactKind → String
expected_path p OwnedArtifactKind.type1_entry = p.experimental_entry.path
expected_path p OwnedArtifactKind.validation_unit =
    "/etc/systemd/system/nemor-phase6-" +++ (p.validation_id +++ ".service")
expected_path p OwnedArtifactKind.helper_binary =
    p.transaction_root +++ "/bin/nemor-tiering-boot-validation"

unfoldable pub path_check : PreparedManifestPayload → OwnedArtifact → Bool × BootValidationError
path_check p a = (
  not (is_absolute a.path)
      || (has_parent_dir a.path
          || (is_under "/usr/lib" a.path || not (str_eq a.path (expected_path p a.kind)))),
  BootValidationError.path,
)

abbrev pub is_helper_kind : OwnedArtifactKind → Bool
is_helper_kind OwnedArtifactKind.helper_binary = true
is_helper_kind _ = false

abbrev allowed_mode : ℕ → Bool
allowed_mode mode = (mode == 384) || ((mode == 448) || ((mode == 420) || (mode == 493)))

module _ (serial : Serializer) where
  unfoldable pub artifact_checks :
      PreparedManifestPayload → List String → List OwnedArtifact → Checks
  unfolding path_check
  artifact_checks p seen [] = []
  artifact_checks p seen (a ∷ artifacts) =
      path_check p a
      ∷ ((
        contains_str seen a.path
            || (not (a.owner_uid == 0)
                || (not (a.owner_gid == 0)
                    || (not (allowed_mode a.mode)
                        || (not (is_helper_kind a.kind)
                            && not (str_eq (serial.bytes_sha256 a.content) a.sha256))))),
        identity "artifact",
      )
          ∷ artifact_checks p (a.path ∷ seen) artifacts)

  unfoldable pub workload_checks : PreparedManifestPayload → Checks
  workload_checks p =
      (
        not (str_eq p.workload.protocol "tiering-bounded-workload-v3")
            || ((p.workload.bytes == 0)
                || (ltb (256 * 1024 * 1024) p.workload.bytes
                    || ((p.workload.iterations == 0)
                        || ((p.workload.timeout_seconds == 0)
                            || (ltb 600 p.workload.timeout_seconds
                                || (p.workload.maximum_write_bytes == 0)))))),
        identity "workload",
      )
      ∷ []
