-- ===== src/Tiering/BootPlan.antt =====
-- The plan for a boot configuration, which is never carried out (`boot_plan` of
-- crates/tiering/src/plan.rs). The paths in it are constants, as texts.
use nemor.Base.{
  Bool, true, false, not, String, Option, none, some, List, [], ◌∷◌, ◌++◌, any, push_if, is_empty,
  is_some, is_some_and, str_eq, if◌then◌else◌,
}
use nemor.Base.Chars.{codes, strip_prefix}
use nemor.Tiering.Topology.{StorageClass, UnixPath}
use nemor.Tiering.Swapfile.{SwapfilePlan}
use nemor.Tiering.Inventory.{ZswapInventory}

pub record BootFilePlan : Type 0 where
  pub path : String
  pub action : String
  pub backup_required : Bool
  pub checksum_required : Bool

pub record BootTieringPlan : Type 0 where
  pub bootloader : Option String
  pub zram_disable_requirement : Bool
  pub zswap_kernel_params : List String
  pub cachyos_udev_override : Option String
  pub backing_swapfile : UnixPath
  pub files : List BootFilePlan
  pub post_reboot_validation : List String
  pub rollback : List String
  pub requires_user_approval : Bool
  pub allowed : Bool
  pub blocked_reasons : List String

abbrev is_solid : StorageClass → Bool
is_solid StorageClass.nvme = true
is_solid StorageClass.solid_state_non_nvme = true
is_solid _ = false

abbrev file_plan : String → String → BootFilePlan
file_plan path action = record {
  path = path;
  action = action;
  backup_required = true;
  checksum_required = true;
}

abbrev pub cmdline_path : Option String → Option String
cmdline_path none = none
cmdline_path (some name) =
    if str_eq name "grub"
    then some "/etc/default/grub"
    else if str_eq name "systemd-boot"
    then some "/boot/loader/loader.conf"
    else if str_eq name "kernel-install/uki"
    then some "/etc/kernel/cmdline"
    else none

abbrev planned : String → Option String → List BootFilePlan
planned action none = []
planned action (some path) = file_plan path action ∷ []

abbrev is_vendor : BootFilePlan → Bool
is_vendor file = is_some (strip_prefix (codes "/usr/lib") (codes file.path))

unfoldable pub override_path : ZswapInventory → Option String
override_path inventory =
    if inventory.provider.cachyos_zswap_disable_rule
    then some "/etc/udev/rules.d/30-zram.rules"
    else none

unfoldable pub boot_files : ZswapInventory → List BootFilePlan
unfolding override_path
boot_files inventory =
    planned "add bounded zswap kernel parameters" (cmdline_path inventory.provider.bootloader)
    ++ planned "Nemor-owned override; never modify /usr/lib" (override_path inventory)

unfoldable pub boot_blocks : ZswapInventory → SwapfilePlan → List String
unfolding boot_files
boot_blocks inventory swapfile =
    push_if (any is_vendor (boot_files inventory)) "vendor_path_forbidden" (
      push_if
        (is_some_and inventory.provider.bootloader
          (λ name. str_eq name "systemd-boot/kernel-install-uki"))
        "validation_only_manifest_required"
        (push_if (not (is_solid swapfile.physical_device_class)) "storage_profile_unsupported" (
          push_if (not swapfile.allowed) "swapfile_plan_blocked"
            (push_if (not (is_some inventory.provider.bootloader)) "bootloader_unknown" []))))

unfoldable pub boot_plan : ZswapInventory → SwapfilePlan → BootTieringPlan
unfolding boot_blocks
boot_plan inventory swapfile = record {
  bootloader = inventory.provider.bootloader;
  zram_disable_requirement = inventory.provider.systemd_zram;
  zswap_kernel_params =
      "zswap.enabled=1"
      ∷ ("zswap.max_pool_percent=<planned>" ∷ ("zswap.accept_threshold_percent=<planned>" ∷ []));
  cachyos_udev_override = override_path inventory;
  backing_swapfile = swapfile.path;
  files = boot_files inventory;
  post_reboot_validation =
      "verify zswap parameter readback"
      ∷ ("verify exact profile-bound storage-backed swapfile"
          ∷ ("verify daemon remains observe-only" ∷ []));
  rollback =
      "restore checksummed backups"
      ∷ ("remove only Nemor-owned override" ∷ ("reboot and verify CachyOS baseline" ∷ []));
  requires_user_approval = true;
  allowed = is_empty (boot_blocks inventory swapfile);
  blocked_reasons = boot_blocks inventory swapfile;
}
