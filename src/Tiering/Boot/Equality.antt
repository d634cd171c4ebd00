-- ===== src/Tiering/Boot/Equality.antt =====
-- Tests on texts, and the derived equality of the identities (crates/tiering/src/boot_validation_v6.rs).
use nemor.Base.{
  ℕ, Bool, true, false, not, ◌&&◌, ◌||◌, String, List, [], ◌∷◌, ◌==◌, str_eq, opt_str_eq, is_some,
  length, all, leb,
}
use nemor.Base.Chars.{Chars, codes, strip_prefix}
use nemor.Base.Integer.{ℤ, leb_ℤ}
use nemor.Tiering.Boot.Types.{
  StorageProfile, BlockLayerIdentity, PhysicalDeviceIdentity, FilesystemIdentity,
  StorageTopologyIdentity, SwapIdentity, ZramIdentity,
}

-- `text.contains(part)`.
unfoldable pub contains_text : Chars → Chars → Bool
contains_text [] part = is_some (strip_prefix part [])
contains_text (c ∷ cs) part = is_some (strip_prefix part (c ∷ cs)) || contains_text cs part

abbrev pub is_hexdigit : ℕ → Bool
is_hexdigit c = (leb 48 c && leb c 57) || ((leb 65 c && leb c 70) || (leb 97 c && leb c 102))

unfoldable pub is_sha256 : String → Bool
is_sha256 value = (length (codes value) == 64) && all is_hexdigit (codes value)

abbrev pub ℤ_eq : ℤ → ℤ → Bool
ℤ_eq a b = leb_ℤ a b && leb_ℤ b a

abbrev pub bool_eq : Bool → Bool → Bool
bool_eq true b = b
bool_eq false b = not b

abbrev pub swap_eq : SwapIdentity → SwapIdentity → Bool
swap_eq s t =
    str_eq s.path t.path
    && (str_eq s.kind t.kind
        && ((s.size_bytes == t.size_bytes)
            && (ℤ_eq s.priority t.priority
                && (opt_str_eq s.uuid t.uuid && bool_eq s.active t.active))))

abbrev pub swaps_eq : List SwapIdentity → List SwapIdentity → Bool
swaps_eq [] [] = true
swaps_eq [] (t ∷ ts) = false
swaps_eq (s ∷ ss) [] = false
swaps_eq (s ∷ ss) (t ∷ ts) = swap_eq s t && swaps_eq ss ts

abbrev pub zram_eq : ZramIdentity → ZramIdentity → Bool
zram_eq s t =
    str_eq s.device t.device
    && (str_eq s.provider t.provider
        && (bool_eq s.active t.active
            && (ℤ_eq s.priority t.priority
                && ((s.disksize_bytes == t.disksize_bytes)
                    && (str_eq s.compressor t.compressor
                        && ((s.memory_limit_bytes == t.memory_limit_bytes)
                            && str_eq s.unit t.unit))))))

abbrev profile_rank : StorageProfile → ℕ
profile_rank StorageProfile.nvme_ssd = 0
profile_rank StorageProfile.sata_ssd = 1
profile_rank StorageProfile.sas_ssd = 2
profile_rank StorageProfile.usb_ssd = 3
profile_rank StorageProfile.other_non_rotational = 4
profile_rank StorageProfile.rotational = 5
profile_rank StorageProfile.composite = 6
profile_rank StorageProfile.virtual = 7
profile_rank StorageProfile.ambiguous = 8

abbrev pub profile_eq : StorageProfile → StorageProfile → Bool
profile_eq p q = profile_rank p == profile_rank q

unfoldable layer_eq : BlockLayerIdentity → BlockLayerIdentity → Bool
layer_eq s t =
    str_eq s.path t.path
    && (str_eq s.kind t.kind
        && ((s.major == t.major) && ((s.minor == t.minor) && opt_str_eq s.parent t.parent)))

unfoldable chain_eq : List BlockLayerIdentity → List BlockLayerIdentity → Bool
chain_eq [] [] = true
chain_eq [] (t ∷ ts) = false
chain_eq (s ∷ ss) [] = false
chain_eq (s ∷ ss) (t ∷ ts) = layer_eq s t && chain_eq ss ts

unfoldable physical_eq : PhysicalDeviceIdentity → PhysicalDeviceIdentity → Bool
physical_eq s t =
    str_eq s.path t.path
    && ((s.major == t.major)
        && ((s.minor == t.minor)
            && (str_eq s.transport t.transport
                && (bool_eq s.rotational t.rotational
                    && (str_eq s.model t.model
                        && (opt_str_eq s.serial t.serial
                            && (opt_str_eq s.wwn t.wwn
                                && ((s.capacity_bytes == t.capacity_bytes)
                                    && ((s.logical_block_size == t.logical_block_size)
                                        && (s.physical_block_size == t.physical_block_size))))))))))

unfoldable filesystem_eq : FilesystemIdentity → FilesystemIdentity → Bool
filesystem_eq s t =
    str_eq s.filesystem t.filesystem
    && (str_eq s.uuid_or_fsid t.uuid_or_fsid
        && (str_eq s.mount_source t.mount_source
            && (str_eq s.mount_point t.mount_point
                && ((s.mount_id == t.mount_id)
                    && ((s.device_major == t.device_major)
                        && (s.device_minor == t.device_minor))))))

unfoldable pub topology_eq : StorageTopologyIdentity → StorageTopologyIdentity → Bool
unfolding layer_eq chain_eq physical_eq filesystem_eq
topology_eq s t =
    str_eq s.storage_profile_version t.storage_profile_version
    && (profile_eq s.profile t.profile
        && (chain_eq s.chain t.chain
            && (physical_eq s.physical t.physical
                && (filesystem_eq s.filesystem t.filesystem
                    && (bool_eq s.composite t.composite
                        && (bool_eq s.ambiguous t.ambiguous
                            && str_eq s.confidence t.confidence))))))
