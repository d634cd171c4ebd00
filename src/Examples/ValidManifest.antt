-- ===== src/Examples/ValidManifest.antt =====
-- A manifest that passes its checks, applied on a small host
-- (crates/tiering/src/boot_validation_v6.rs).
use nemor.Base.{
  ℕ, ◌*◌, ◌≤◌, ◌≡◌, refl, Bool, true, false, String, ◌+++◌, none, some, List, [], ◌∷◌, ok,
}
use nemor.Base.Integer.{pos}
use nemor.Base.Chars.{codes, strip_prefix, trim, trim_start, trim_end, is_whitespace, split_on}
use nemor.Base.Exec.{◌>>=◌, query, refuse, need, pure, when}
use nemor.Tiering.Boot.Equality.{is_sha256, contains_text}
use nemor.Tiering.Boot.Apply.{apply_exact_transaction}
use nemor.Tiering.Boot.Manifest.Whole.{check_manifest}
use nemor.Tiering.Boot.Types.{
  PreparedManifest, PreparedManifestPayload, BinaryIdentity, StagedBinaryPlan, SwapIdentity,
  ZramIdentity, BootEntryIdentity, ReferencedBootFile, OwnedArtifact, OwnedArtifactKind,
}
use nemor.Tiering.Boot.Stages.{TransactionStage, legal_transition}
use nemor.Tiering.Boot.Interface.{BootLifecycleBackend, Serializer}
use nemor.Tiering.Boot.Ledger.{
  DurableTransaction, seal, evidence, validate, transition, record_evidence, complete_last,
  complete_last_of, record_intent,
}
use nemor.Tiering.Boot.Lifecycle.{seal_of, change, finish_intent}
use nemor.Tiering.Boot.Initialize.{new_transaction}
use nemor.Tiering.Boot.Manifest.{utf8}
use nemor.Tiering.Boot.Manifest.Entries.{render_type1_entry, render_validation_unit}
use nemor.Tiering.Boot.Manifest.Checked.{applied-bounded}
use nemor.Examples.BootHost.{host, topology, helper_plan, disk, boot, payload}

abbrev hash : String
hash = "0123456789abcdef0123456789abcdef0123456789abcdef0123456789abcdef"

abbrev commit : String
commit = "0123456789abcdef0123456789abcdef01234567"

abbrev root : String
root = "/var/lib/nemor/validation/phase6/validation-1"

abbrev helper : BinaryIdentity
helper = record { path = "/usr/bin/validator"; sha256 = hash; embedded_commit = commit }

abbrev staged : StagedBinaryPlan
staged = record helper_plan {
  source = helper;
  destination = root +++ "/bin/nemor-tiering-boot-validation";
  destination_mode = 493;
  require_single_link = true;
  source_link_count = 1;
  source_mode = 493;
  source_device = 1;
  source_inode = 1;
}

abbrev tuned : List (String × String)
tuned =
    ("compressor", "zstd")
    ∷ (("zpool", "zsmalloc")
        ∷ (("max_pool_percent", "20")
            ∷ (("accept_threshold_percent", "90") ∷ (("shrinker_enabled", "N") ∷ []))))

abbrev zram : ZramIdentity
zram = record {
  device = "/dev/zram0";
  provider = "systemd";
  active = true;
  priority = pos 5;
  disksize_bytes = 4096;
  compressor = "zstd";
  memory_limit_bytes = 0;
  unit = "";
}

abbrev zram_swap : SwapIdentity
zram_swap = record {
  path = "/dev/zram0";
  kind = "partition";
  size_bytes = 4096;
  priority = pos 5;
  uuid = none;
  active = true;
}

abbrev swap : SwapIdentity
swap = record {
  path = root +++ "/backing.swap";
  kind = "file";
  size_bytes = 134217728;
  priority = pos 10;
  uuid = none;
  active = false;
}

abbrev current : BootEntryIdentity
current = record {
  id = "current";
  path = "/boot/loader/entries/current.conf";
  sha256 = hash;
  title = "Linux";
  linux_or_efi = "/vmlinuz";
  initrds = "/initrd" ∷ [];
  options = "quiet";
}

abbrev experimental : BootEntryIdentity
experimental = record current {
  id = "experimental";
  path = "/boot/loader/entries/nemor-phase6-validation-1.conf";
  options =
      "nemor.phase6_validation=validation-1 zswap.enabled=1 systemd.wants=nemor-phase6-validation-1.service";
}

abbrev reference : String → ReferencedBootFile
reference path = record { path = path; sha256 = hash }

abbrev bare : PreparedManifestPayload
bare = record payload {
  contract_version = "tiering-boot-validation-v6";
  rule_version = "tiering-rules-v5-storage-profile-comparison";
  source_commit = commit;
  source_state_sha256 = hash;
  config_sha256 = hash;
  material_environment_sha256 = hash;
  binaries = ("nemor-tiering-boot-validation", helper) ∷ [];
  config_path = "/etc/nemor.toml";
  topology = record topology {
    storage_profile_version = "nemor-storage-profile-v1";
    chain =
        record { path = "/dev/nvme0n1"; kind = "disk"; major = 1; minor = 0; parent = none } ∷ [];
    physical = record disk {
      path = "/dev/nvme0n1";
      transport = "nvme";
      rotational = false;
      serial = some "1";
      capacity_bytes = 4096;
      logical_block_size = 512;
      physical_block_size = 512;
    };
    filesystem = record topology.filesystem { uuid_or_fsid = "1"; mount_point = "/" };
    composite = false;
    ambiguous = false;
    confidence = "high";
  };
  baseline_swaps = zram_swap ∷ [];
  protected_zram = zram;
  baseline_zswap = record { parameters = ("enabled", "N") ∷ tuned };
  experimental_zswap = ("enabled", "Y") ∷ tuned;
  boot = record boot {
    bootloader = "systemd-boot-type1";
    secure_boot = "disabled";
    current_entry = current;
    default_entry = current;
    referenced_files = reference "/vmlinuz" ∷ (reference "/initrd" ∷ []);
  };
  experimental_entry = experimental;
  validation_marker = "nemor.phase6_validation=validation-1";
  swapfile = swap;
  owned_artifacts = [];
  transaction_root = root;
  workload = record {
    protocol = "tiering-bounded-workload-v3";
    seed = 1;
    bytes = 4096;
    iterations = 1;
    timeout_seconds = 60;
    maximum_write_bytes = 4096;
  };
  staged_helper = staged;
  recovery_entry = "current";
  production_activation = false;
}

abbrev artifact : OwnedArtifactKind → String → List ℕ → OwnedArtifact
artifact kind path content = record {
  kind = kind;
  path = path;
  sha256 = hash;
  mode = 493;
  owner_uid = 0;
  owner_gid = 0;
  content = content;
}

unfoldable entry_bytes : List ℕ
unfolding render_type1_entry
entry_bytes = utf8 (codes (render_type1_entry experimental))

unfoldable unit_bytes : List ℕ
unfolding render_validation_unit
unit_bytes = utf8 (codes (render_validation_unit bare staged.destination))

abbrev valid : PreparedManifest
valid = record {
  schema = "tiering-boot-prepared-manifest-v6";
  payload = record bare {
    owned_artifacts =
        artifact OwnedArtifactKind.type1_entry experimental.path entry_bytes
        ∷ (artifact OwnedArtifactKind.validation_unit
              "/etc/systemd/system/nemor-phase6-validation-1.service" unit_bytes
            ∷ (artifact OwnedArtifactKind.helper_binary staged.destination [] ∷ []));
  };
  payload_sha256 = hash;
}

abbrev hasher : Serializer
hasher = record {
  to_vec = λ _. some [];
  bytes_sha256 = λ _. hash;
  canonical_json_sha256 = λ _. hash;
}

abbrev formatting : BootLifecycleBackend Bool
formatting = record host {
  create_swapfile = λ m b. (true, ok (record m.payload.swapfile { uuid = some "1" }));
  permanent_default = λ _. some "current";
}

-- The transaction after the baseline was measured.
abbrev ready : DurableTransaction
ready =
    seal (seal_of formatting hasher)
      (record (new_transaction formatting hasher valid "boot-1").payload {
        stage = TransactionStage.baseline_measured;
        evidence_hashes = ("zram-baseline-evidence-v4.json", hash) ∷ [];
      })

applied-bounded_example :
    (64 * 1024 * 1024 ≤ valid.payload.swapfile.size_bytes)
    × (valid.payload.swapfile.size_bytes ≤ 2 * 1024 * 1024 * 1024)
    × (valid.payload.swapfile.active ≡ false)
unfolding apply_exact_transaction ◌>>=◌ query check_manifest strip_prefix is_sha256 trim trim_start
    trim_end is_whitespace contains_text entry_bytes unit_bytes split_on validate seal refuse
    new_transaction evidence need pure when transition change record_evidence legal_transition
    complete_last complete_last_of record_intent finish_intent
applied-bounded_example = applied-bounded hasher formatting valid (ready, false) refl
