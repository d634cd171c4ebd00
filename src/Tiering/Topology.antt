-- ===== src/Tiering/Topology.antt =====
-- The storage below a swapfile (crates/tiering/src/topology.rs). What the kernel shows of it is read
-- from files, and is not modelled.
use nemor.Base.{ℕ, Bool, true, false, ◌&&◌, String, Option, List, [], ◌∷◌, str_eq}
use nemor.Tiering.Boot.Types.{StorageProfile}
use nemor.Tiering.Boot.Equality.{bool_eq}

pub data StorageClass : Type 0 where
  nvme solid_state_non_nvme rotational unknown : StorageClass

pub record BlockDevice : Type 0 where
  pub name : String
  pub class : StorageClass
  pub rotational : Option Bool
  pub logical_block_size : Option ℕ
  pub physical_block_size : Option ℕ
  pub discard_max_bytes : Option ℕ
  pub model : Option String
  pub transport : Option String
  pub serial : Option String
  pub wwn : Option String
  pub capacity_bytes : Option ℕ

pub record StorageTopology : Type 0 where
  pub mount_source : String
  pub filesystem : String
  pub chain : List String
  pub physical : Option BlockDevice
  pub ambiguous : Bool
  pub profile_version : String
  pub profile : Option StorageProfile
  pub device_identity : Option String
  pub filesystem_identity : Option String

abbrev pub boot_supported : StorageProfile → Bool
boot_supported StorageProfile.nvme_ssd = true
boot_supported StorageProfile.sata_ssd = true
boot_supported _ = false

-- The name that serialization gives to a profile.
abbrev pub profile_name : StorageProfile → String
profile_name StorageProfile.nvme_ssd = "nvme_ssd"
profile_name StorageProfile.sata_ssd = "sata_ssd"
profile_name StorageProfile.sas_ssd = "sas_ssd"
profile_name StorageProfile.usb_ssd = "usb_ssd"
profile_name StorageProfile.other_non_rotational = "other_non_rotational"
profile_name StorageProfile.rotational = "rotational"
profile_name StorageProfile.composite = "composite"
profile_name StorageProfile.virtual = "virtual"
profile_name StorageProfile.ambiguous = "ambiguous"

-- A path by its components, as `Path` compares it: a root or none, and what follows.
pub data Component : Type 0 where
  parent_dir cur_dir : Component
  normal : String → Component

pub record UnixPath : Type 0 where
  pub is_absolute : Bool
  pub components : List Component

abbrev component_eq : Component → Component → Bool
component_eq Component.parent_dir Component.parent_dir = true
component_eq Component.cur_dir Component.cur_dir = true
component_eq (Component.normal a) (Component.normal b) = str_eq a b
component_eq _ _ = false

abbrev components_eq : List Component → List Component → Bool
components_eq [] [] = true
components_eq (c ∷ cs) (d ∷ ds) = component_eq c d && components_eq cs ds
components_eq _ _ = false

unfoldable pub path_eq : UnixPath → UnixPath → Bool
path_eq p q = bool_eq p.is_absolute q.is_absolute && components_eq p.components q.components
