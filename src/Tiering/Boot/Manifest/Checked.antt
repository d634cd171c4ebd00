-- ===== src/Tiering/Boot/Manifest/Checked.antt =====
-- What the checks of a manifest establish (crates/tiering/src/boot_validation_v6.rs).
use nemor.Base.{
  ℕ, ◌*◌, ◌≤◌, ◌≡◌, refl, Bool, true, false, not, ◌&&◌, ◌||◌, [], ◌∷◌, ◌++◌, all, ltb, is_ok, arith,
}
use nemor.Base.Exec.{query}
use nemor.Base.Exec.Keeps.{first-ok, query-ok}
use nemor.Tiering.Boot.Types.{BootValidationError, PreparedManifest, PreparedManifestPayload}
use nemor.Tiering.Boot.Interface.{BootLifecycleBackend, Serializer}
use nemor.Tiering.Boot.Lifecycle.{World}
use nemor.Tiering.Boot.Operations.{validated}
use nemor.Tiering.Boot.Apply.{apply_exact_transaction}
use nemor.Tiering.Boot.Manifest.{
  Checks, first_error, topology_checks, zswap_checks, swap_checks, baseline_checks,
}
use nemor.Tiering.Boot.Manifest.Entries.{entry_checks, reference_checks, content_checks}
use nemor.Tiering.Boot.Manifest.Whole.{
  header_checks, helper_checks, manifest_checks, check_manifest,
}

-- No condition holds.
unfoldable are_clear : Checks → Bool
are_clear checks = all (λ (check : Bool × BootValidationError). not check.0) checks

first_error-clear : (checks : Checks) → is_ok (first_error checks) ≡ true → are_clear checks ≡ true
unfolding first_error are_clear
first_error-clear [] h = refl
first_error-clear ((true, error) ∷ checks) h = h
first_error-clear ((false, error) ∷ checks) h = first_error-clear checks h

clear-left : (xs ys : Checks) → are_clear (xs ++ ys) ≡ true → are_clear xs ≡ true
unfolding are_clear
clear-left [] ys h = refl
clear-left ((true, e) ∷ xs) ys h = h
clear-left ((false, e) ∷ xs) ys h = clear-left xs ys h

clear-right : (xs ys : Checks) → are_clear (xs ++ ys) ≡ true → are_clear ys ≡ true
unfolding are_clear
clear-right [] ys h = h
clear-right ((true, e) ∷ xs) ys h = absurd (ground arith)
clear-right ((false, e) ∷ xs) ys h = clear-right xs ys h

-- The chain of the swapfile, its other tests as variables.
chain_bounds :
    (b1 b2 b3 b4 : Bool) (size low high : ℕ) (rest : Bool)
    → (not (b1 || (b2 || (b3 || (b4 || (ltb size low || (ltb high size || rest)))))) && true) ≡ true
    → (low ≤ size) × (size ≤ high) × (b2 ≡ false)
chain_bounds b1 b2 b3 b4 size low high rest h = ground arith

swap_bounds :
    (p : PreparedManifestPayload)
    → are_clear (swap_checks p) ≡ true
    → (64 * 1024 * 1024 ≤ p.swapfile.size_bytes)
      × (p.swapfile.size_bytes ≤ 2 * 1024 * 1024 * 1024)
      × (p.swapfile.active ≡ false)
unfolding swap_checks are_clear
swap_bounds p h = chain_bounds _ _ _ _ p.swapfile.size_bytes _ _ _ h

module _ (serial : Serializer) where
  swap-clear :
      (manifest : PreparedManifest)
      → are_clear (manifest_checks serial manifest) ≡ true
      → are_clear (swap_checks manifest.payload) ≡ true
  unfolding manifest_checks
  swap-clear manifest h =
      let p = manifest.payload in
      let r1 = clear-right (header_checks serial manifest) _ h in
      let r2 = clear-right (helper_checks p) _ r1 in
      let r3 = clear-right (topology_checks p.topology) _ r2 in
      let r4 = clear-right (baseline_checks p) _ r3 in
      let r5 = clear-right (zswap_checks p) _ r4 in
      let r6 = clear-right (entry_checks p) _ r5 in
      let r7 = clear-right (reference_checks p) _ r6 in
      let r8 = clear-right (content_checks p) _ r7 in clear-left (swap_checks p) _ r8

module _ (serial : Serializer) {B : Type 0} (backend : BootLifecycleBackend B) where
  applied-checked :
      (manifest : PreparedManifest) (w : World B)
      → is_ok (apply_exact_transaction backend serial (check_manifest serial) manifest w).1 ≡ true
      → is_ok (check_manifest serial manifest) ≡ true
  unfolding apply_exact_transaction
  applied-checked manifest w h =
      let start = first-ok (validated backend serial (check_manifest serial) manifest) _ w h in
      query-ok (λ _. check_manifest serial manifest) w
        (first-ok (query (λ _. check_manifest serial manifest)) _ w start)

  -- A manifest that was applied with success has a swapfile of 64 MiB to 2 GiB, which is not yet
  -- active.
  pub applied-bounded :
      (manifest : PreparedManifest) (w : World B)
      → is_ok (apply_exact_transaction backend serial (check_manifest serial) manifest w).1 ≡ true
      → (64 * 1024 * 1024 ≤ manifest.payload.swapfile.size_bytes)
        × (manifest.payload.swapfile.size_bytes ≤ 2 * 1024 * 1024 * 1024)
        × (manifest.payload.swapfile.active ≡ false)
  unfolding check_manifest
  applied-bounded manifest w h = swap_bounds manifest.payload (
      swap-clear serial manifest
        (first_error-clear (manifest_checks serial manifest) (applied-checked manifest w h)))
