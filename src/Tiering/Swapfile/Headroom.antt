-- ===== src/Tiering/Swapfile/Headroom.antt =====
-- The bounds of an allowed swapfile plan (crates/tiering/src/swapfile.rs).
use nemor.Base.{
  ℕ, ◌+◌, ◌*◌, ◌/◌, ◌≤◌, ◌<◌, ◌≡◌, Bool, true, false, String, List, push_if, min, max, is_empty,
  is_empty-push_if, ltb, u64_max, saturating_add, saturating_mul, arith,
}
use nemor.Common.Config.{TieringConfig}
use nemor.Tiering.Swapfile.{
  SwapfileContext, swapfile_blocks, plan_swapfile, proposed_size, headroom,
}

not_pushed :
    (b : Bool) (s : String) (ss : List String) → is_empty (push_if b s ss) ≡ true → b ≡ false
not_pushed b s ss h = let e = is_empty-push_if b s ss in ground (arith, e)

leaves_headroom :
    (free size head : ℕ)
    → free < u64_max
    → ltb free (saturating_add size head) ≡ false
    → size + head ≤ free
leaves_headroom free size head small fits = ground arith

twice_at_most : (a c r : ℕ) → min (min a (saturating_mul r 2)) c ≤ r * 2
twice_at_most a c r = omega arith

share_at_most : (a p : ℕ) → min a (min p u64_max / 100) * 100 ≤ p
share_at_most a p = omega arith

module _ {F : Type 0} (x : SwapfileContext) (config : TieringConfig F) where
  allowed-fits :
      (plan_swapfile x config).allowed ≡ true
      → ltb x.free_bytes (saturating_add (proposed_size x config) (headroom config)) ≡ false
  unfolding plan_swapfile swapfile_blocks
  allowed-fits h = not_pushed _ _ _ h

  -- Where the free space is below the greatest number of 64 bits, an allowed plan leaves the
  -- headroom on the disk, is at most twice the memory, and is at most its share of the file system.
  pub plan_swapfile-bounded :
      x.free_bytes < u64_max
      → (plan_swapfile x config).allowed ≡ true
      → ((plan_swapfile x config).proposed_size + (plan_swapfile x config).required_headroom_bytes
          ≤ x.free_bytes)
        × ((plan_swapfile x config).proposed_size ≤ x.total_ram_bytes * 2)
        × ((plan_swapfile x config).proposed_size * 100
            ≤ x.filesystem_size_bytes * config.max_swapfile_percent_disk)
  unfolding plan_swapfile
  plan_swapfile-bounded small h = (
    leaves_headroom x.free_bytes (proposed_size x config) (headroom config) small (allowed-fits h),
    twice_at_most (max x.capacity_target_bytes (x.total_ram_bytes / 4)) _ x.total_ram_bytes,
    share_at_most _ (x.filesystem_size_bytes * config.max_swapfile_percent_disk),
  )
