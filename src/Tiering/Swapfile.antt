-- ===== src/Tiering/Swapfile.antt =====
-- The plan of a swapfile (crates/tiering/src/swapfile.rs).
pub mod Headroom
use nemor.Base.{
  ℕ, ◌*◌, ◌/◌, ◌<◌, Bool, true, false, not, ◌&&◌, ◌||◌, String, Option, none, some, List, [], ◌∷◌,
  min, max, push_if, is_empty, is_some, any, ltb, str_eq, contains_str, saturating_add,
  saturating_mul, if◌then◌else◌, Result, ok, err,
}
use nemor.Base.Integer.{ℤ, pos}
use nemor.Common.Config.{TieringConfig}
use nemor.Tiering.Boot.Types.{StorageProfile}
use nemor.Tiering.Topology.{
  StorageClass, StorageTopology, BlockDevice, UnixPath, Component, path_eq, profile_name,
}

pub data FilesystemKind : Type 0 where
  ext4 btrfs unsupported : FilesystemKind

pub data SwapfileOwnership : Type 0 where
  nemor_owned adopted external unknown : SwapfileOwnership

pub record SwapfileContext : Type 0 where
  pub path : UnixPath
  pub parent_canonical : UnixPath
  pub mountpoint : UnixPath
  pub filesystem : FilesystemKind
  pub topology : StorageTopology
  pub total_ram_bytes : ℕ
  pub zram_size_bytes : ℕ
  pub free_bytes : ℕ
  pub filesystem_size_bytes : ℕ
  pub capacity_target_bytes : ℕ
  pub btrfs_nocow : Bool
  pub btrfs_preallocated : Bool
  pub has_holes : Bool
  pub active_external : Bool
  pub ownership : SwapfileOwnership
  pub gaming : Bool
  pub severe_pressure : Bool

pub record SwapfilePlan : Type 0 where
  pub path : UnixPath
  pub mountpoint : UnixPath
  pub filesystem : FilesystemKind
  pub backing_device : String
  pub physical_device_class : StorageClass
  pub proposed_size : ℕ
  pub priority : ℤ
  pub free_bytes : ℕ
  pub required_headroom_bytes : ℕ
  pub ownership : SwapfileOwnership
  pub create_required : Bool
  pub format_required : Bool
  pub activate_required : Bool
  pub persistence_requested : Bool
  pub allowed : Bool
  pub blocked_reasons : List String
  pub dry_run : Bool

abbrev is_normal : Component → Bool
is_normal (Component.normal _) = true
is_normal _ = false

-- `file_name()` and `parent()`.
abbrev pub file_name : List Component → Option String
file_name [] = none
file_name (Component.normal name ∷ []) = some name
file_name (Component.parent_dir ∷ []) = none
file_name (Component.cur_dir ∷ []) = none
file_name (_ ∷ (c ∷ cs)) = file_name (c ∷ cs)

abbrev pub all_but_last : List Component → List Component
all_but_last [] = []
all_but_last (_ ∷ []) = []
all_but_last (c ∷ (d ∷ ds)) = c ∷ all_but_last (d ∷ ds)

abbrev pub parent : UnixPath → UnixPath
parent path = record path { components = all_but_last path.components }

abbrev is_owned_name : Option String → Bool
is_owned_name none = false
is_owned_name (some name) = str_eq name "nemor-tiering.swap"

-- A path with a file name has a parent, so that the error of a missing one is not met.
unfoldable pub validate_candidate_path : UnixPath → UnixPath → Result String (Unit {0})
validate_candidate_path path parent_canonical =
    if not path.is_absolute || any (λ c. not (is_normal c)) path.components
    then err "swapfile path must be absolute and normalized"
    else if not (is_owned_name (file_name path.components))
    then err "swapfile name is outside the Nemor-owned namespace"
    else if not (path_eq (parent path) parent_canonical) || not parent_canonical.is_absolute
    then err "swapfile parent canonicalization mismatch"
    else ok tt

abbrev pub push_error : Result String (Unit {0}) → List String → List String
push_error (ok _) blocked = blocked
push_error (err e) blocked = push_if true e blocked

abbrev pub is_nemor_owned : SwapfileOwnership → Bool
is_nemor_owned SwapfileOwnership.nemor_owned = true
is_nemor_owned _ = false

unfoldable pub filesystem_blocks : SwapfileContext → FilesystemKind → List String → List String
filesystem_blocks x FilesystemKind.ext4 blocked =
    push_if x.has_holes "ext4_swapfile_has_holes" blocked
filesystem_blocks x FilesystemKind.btrfs blocked =
    push_if (not x.btrfs_preallocated || x.has_holes) "btrfs_swapfile_requires_valid_preallocation"
      (push_if (not x.btrfs_nocow) "btrfs_swapfile_requires_nocow" blocked)
filesystem_blocks x FilesystemKind.unsupported blocked =
    push_if true "unsupported_filesystem" blocked

abbrev pub class_of : Option BlockDevice → StorageClass
class_of none = StorageClass.unknown
class_of (some device) = device.class

abbrev pub authorized : List String → Option StorageProfile → Bool
authorized supported none = false
authorized supported (some profile) = contains_str supported (profile_name profile)

module _ {F : Type 0} where
  abbrev pub proposed_size : SwapfileContext → TieringConfig F → ℕ
  proposed_size x config =
      min
        (min (max x.capacity_target_bytes (x.total_ram_bytes / 4))
          (saturating_mul x.total_ram_bytes 2))
        (saturating_mul x.filesystem_size_bytes config.max_swapfile_percent_disk / 100)

  abbrev pub headroom : TieringConfig F → ℕ
  headroom config = saturating_mul config.min_free_disk_gib 1073741824

  unfoldable pub swapfile_blocks : SwapfileContext → TieringConfig F → List String
  unfolding validate_candidate_path filesystem_blocks
  swapfile_blocks x config =
      let b1 = push_error (validate_candidate_path x.path x.parent_canonical) [] in
      let b2 = push_if x.active_external "candidate_is_external_active_swap" b1 in
      let b3 = push_if (not (is_nemor_owned x.ownership)) "swapfile_not_nemor_owned" b2 in
      let b4 = filesystem_blocks x x.filesystem b3 in
      let b5 =
        push_if (x.topology.ambiguous || not (is_some x.topology.physical))
          "backing_storage_ambiguous" b4 in
      let b6 =
        push_if (not (authorized config.supported_storage_profiles x.topology.profile))
          "storage_profile_not_authorized" b5 in
      let b7 = push_if x.gaming "gaming_defers_structural_io" b6 in
      let b8 = push_if x.severe_pressure "severe_pressure_blocks_reconfiguration" b7 in
      let b9 = push_if (not config.allow_swapfile_create) "swapfile_creation_disabled" b8 in
      push_if (ltb x.free_bytes (saturating_add (proposed_size x config) (headroom config)))
        "insufficient_disk_headroom" b9

  unfoldable pub plan_swapfile : SwapfileContext → TieringConfig F → SwapfilePlan
  unfolding swapfile_blocks
  plan_swapfile x config = record {
    path = x.path;
    mountpoint = x.mountpoint;
    filesystem = x.filesystem;
    backing_device = x.topology.mount_source;
    physical_device_class = class_of x.topology.physical;
    proposed_size = proposed_size x config;
    priority = pos 10;
    free_bytes = x.free_bytes;
    required_headroom_bytes = headroom config;
    ownership = x.ownership;
    create_required = true;
    format_required = true;
    activate_required = true;
    persistence_requested = config.allow_persistent_reconfigure;
    allowed = is_empty (swapfile_blocks x config);
    blocked_reasons = swapfile_blocks x config;
    dry_run = config.dry_run;
  }
