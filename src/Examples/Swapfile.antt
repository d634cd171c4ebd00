-- ===== src/Examples/Swapfile.antt =====
-- The swapfile of tiering on a small host (crates/tiering).
use nemor.Base.{
  ℕ, ◌+◌, ◌*◌, ◌≤◌, ◌≡◌, refl, true, false, none, some, List, [], ◌∷◌, Result, ok, err, arith, not,
  filter,
}
use nemor.Base.Exec.{◌>>=◌, query, refuse, pure}
use nemor.Common.Config.{TieringConfig}
use nemor.Tiering.Boot.Types.{StorageProfile}
use nemor.Tiering.Topology.{
  StorageClass, BlockDevice, StorageTopology, UnixPath, Component, path_eq,
}
use nemor.Tiering.Swapfile.{
  FilesystemKind, SwapfileOwnership, SwapfileContext, SwapfilePlan, plan_swapfile,
}
use nemor.Tiering.Swapfile.Headroom.{plan_swapfile-bounded}
use nemor.Tiering.Backend.{
  BackendError, blocked, contains_path, SwapfileBackend, MutationSnapshot, apply_swapfile,
}
use nemor.Tiering.Backend.Rollback.{Removal, IsSettled, apply_swapfile-IsSettled}
use nemor.Tiering.Backend.Success.{shows, apply_swapfile-shows}

abbrev path_of : List Component → UnixPath
path_of components = record { is_absolute = true; components = components }

abbrev folder : List Component
folder = Component.normal "swap" ∷ []

abbrev file : UnixPath
file = path_of (Component.normal "swap" ∷ (Component.normal "nemor-tiering.swap" ∷ []))

abbrev old_swap : UnixPath
old_swap = path_of (Component.normal "dev" ∷ (Component.normal "zram0" ∷ []))

abbrev disk : BlockDevice
disk = record {
  name = "nvme0n1";
  class = StorageClass.nvme;
  rotational = some false;
  logical_block_size = some 512;
  physical_block_size = some 4096;
  discard_max_bytes = none;
  model = none;
  transport = some "nvme";
  serial = some "1";
  wwn = none;
  capacity_bytes = none;
}

abbrev pub storage : StorageTopology
storage = record {
  mount_source = "/dev/nvme0n1p2";
  filesystem = "ext4";
  chain = "nvme0n1" ∷ [];
  physical = some disk;
  ambiguous = false;
  profile_version = "nemor-storage-profile-v1";
  profile = some StorageProfile.nvme_ssd;
  device_identity = none;
  filesystem_identity = none;
}

abbrev context : SwapfileContext
context = record {
  path = file;
  parent_canonical = path_of folder;
  mountpoint = path_of [];
  filesystem = FilesystemKind.ext4;
  topology = storage;
  total_ram_bytes = 8000000000;
  zram_size_bytes = 0;
  free_bytes = 50000000000;
  filesystem_size_bytes = 100000000000;
  capacity_target_bytes = 4000000000;
  btrfs_nocow = false;
  btrfs_preallocated = false;
  has_holes = false;
  active_external = false;
  ownership = SwapfileOwnership.nemor_owned;
  gaming = false;
  severe_pressure = false;
}

abbrev config : TieringConfig ℕ
config = record {
  enabled = true;
  dry_run = false;
  preferred_backend = "zswap";
  allow_runtime_reconfigure = true;
  allow_persistent_reconfigure = false;
  allow_swapfile_create = true;
  supported_storage_profiles = "nvme_ssd" ∷ [];
  max_swapfile_percent_disk = 10;
  min_free_disk_gib = 20;
  max_write_mib_per_second = 50;
  daily_write_budget_gib = 20;
  benchmark_enabled = false;
  benchmark_max_bytes = 0;
  zswap_pool_min_percent = 10;
  zswap_pool_max_percent = 20;
  allow_shrinker = false;
  rated_tbw = none;
  comparison_enabled = false;
  comparison_max_latency_regression_percent = 10;
  comparison_min_useful_benefit_percent = 5;
  comparison_accepted_confidence = none;
}

plan_swapfile-bounded_example :
    ((plan_swapfile context config).proposed_size
        + (plan_swapfile context config).required_headroom_bytes
      ≤ context.free_bytes)
    × ((plan_swapfile context config).proposed_size ≤ context.total_ram_bytes * 2)
    × ((plan_swapfile context config).proposed_size * 100
        ≤ context.filesystem_size_bytes * config.max_swapfile_percent_disk)
unfolding plan_swapfile path_eq
plan_swapfile-bounded_example = plan_swapfile-bounded context config (omega arith) refl

-- A host that has the active swaps.
abbrev backend : SwapfileBackend (List UnixPath)
backend = record {
  active_swaps = λ active. ok active;
  create_owned = λ _ _ _ active. (active, ok tt);
  activate_owned = λ path _ active. (path ∷ active, ok tt);
  deactivate_owned = λ _ active. (active, ok tt);
  remove_owned = λ _ active. (active, ok tt);
  is_owned = λ _ _. true;
}

abbrev snapshot : MutationSnapshot
snapshot = record {
  path = file;
  baseline_swaps = old_swap ∷ [];
  created = false;
  activated = false;
  rollback_pending = false;
  rolled_back = false;
  last_error = none;
}

abbrev plan : SwapfilePlan
plan = plan_swapfile context config

abbrev host : MutationSnapshot × List UnixPath
host = (snapshot, old_swap ∷ [])

-- A host with its files and its active swaps, on which no swapfile can be activated.
abbrev Files : Type 0
Files = List UnixPath × List UnixPath

abbrev others : UnixPath → List UnixPath → List UnixPath
others path = filter (λ p. not (path_eq p path))

abbrev failing : SwapfileBackend Files
failing = record {
  active_swaps = λ (_, active). ok active;
  create_owned = λ path _ _ (files, active). ((path ∷ files, active), ok tt);
  activate_owned = λ _ _ b. (b, err (blocked "swapon"));
  deactivate_owned = λ path (files, active). ((files, others path active), ok tt);
  remove_owned = λ path (files, active). ((others path files, active), ok tt);
  is_owned = λ (files, _) path. contains_path files path;
}

abbrev Gone : UnixPath → Files → Type 0
Gone path b = contains_path b.0 path ≡ false

abbrev Down : UnixPath → Files → Type 0
Down path b = contains_path b.1 path ≡ false

others-without :
    (path : UnixPath) (ps : List UnixPath) → contains_path (others path ps) path ≡ false
others-without path [] = refl
others-without path (p ∷ ps) = ground (arith, others-without path ps)

abbrev answer : List UnixPath → Result BackendError (List UnixPath)
answer active = ok active

ok_inj : (a b : List UnixPath) → answer a ≡ answer b → a ≡ b
ok_inj a b h = ground arith

failing-Removal : Removal failing Gone Down
failing-Removal = record {
  removed = λ path b h. others-without path b.0;
  deactivated = λ path b h. others-without path b.1;
  inactive = λ path b active e h. rw (ok_inj b.1 active e) h;
  stays_down = λ path b h. h;
}

abbrev idle : MutationSnapshot × Files
idle = (snapshot, ([], old_swap ∷ []))

apply_swapfile-IsSettled_example : IsSettled Gone Down (apply_swapfile failing plan idle).0
apply_swapfile-IsSettled_example =
    apply_swapfile-IsSettled failing failing-Removal plan idle refl refl

apply_swapfile-shows_example :
    shows plan.path
      (apply_swapfile backend plan host).0.0
      (backend.active_swaps (apply_swapfile backend plan host).0.1)
    ≡ true
unfolding plan_swapfile apply_swapfile path_eq ◌>>=◌ query refuse pure
apply_swapfile-shows_example = apply_swapfile-shows backend plan host refl refl
