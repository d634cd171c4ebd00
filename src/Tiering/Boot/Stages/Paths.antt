-- ===== src/Tiering/Boot/Stages/Paths.antt =====
-- What the legal transitions allow along a path of stages
-- (crates/tiering/src/boot_validation_v6.rs).
use nemor.Base.{◌≡◌, ◌⊎◌, inl, inr, refl, Bool, true, false, ◌&&◌, ◌||◌, not, arith, Bool-cases}
use nemor.Tiering.Boot.Stages.{TransactionStage, legal_transition}
use TransactionStage.{
  prepared, root_preflighted, baseline_measuring, baseline_measured, applying, applied,
  one_shot_selecting, one_shot_selected, experimental_boot_detected, activation_preparing,
  zswap_disabling, zswap_parameters_applying, zswap_enabling, swap_activating, activation_verified,
  activation_failed, post_boot_measuring, post_boot_validated, baseline_selecting,
  baseline_selected, baseline_boot, baseline_verified, cleaning, restored, recovered, failed,
}

pub data LegalPath (s : TransactionStage) : TransactionStage → Type 0 where
  here : LegalPath s s
  next : {t u : TransactionStage} → LegalPath s t → legal_transition t u ≡ true → LegalPath s u

pub LegalPath-trans : {s t u : TransactionStage} → LegalPath s t → LegalPath t u → LegalPath s u
LegalPath-trans p here = p
LegalPath-trans p (next q step) = next (LegalPath-trans p q) step

-- The stages after the baseline was measured, in which the host may be changed.
unfoldable pub is_experimental : TransactionStage → Bool
is_experimental baseline_measured = true
is_experimental applying = true
is_experimental applied = true
is_experimental one_shot_selecting = true
is_experimental one_shot_selected = true
is_experimental experimental_boot_detected = true
is_experimental activation_preparing = true
is_experimental zswap_disabling = true
is_experimental zswap_parameters_applying = true
is_experimental zswap_enabling = true
is_experimental swap_activating = true
is_experimental activation_verified = true
is_experimental activation_failed = true
is_experimental post_boot_measuring = true
is_experimental post_boot_validated = true
is_experimental _ = false

unfoldable pub is_measured : TransactionStage → Bool
is_measured baseline_measured = true
is_measured _ = false

-- The path comes through the stage in which the baseline is measured.
abbrev pub passes_measured : {s t : TransactionStage} → LegalPath s t → Bool
passes_measured {s} here = is_measured s
passes_measured (next {t} {u} p step) = is_measured u || passes_measured p

edge_is_right : TransactionStage → TransactionStage → Bool
edge_is_right t u =
    not (legal_transition t u && is_experimental u) || (is_measured u || is_experimental t)

-- By evaluation at each pair of stages.
edges : (t u : TransactionStage) → edge_is_right t u ≡ true
unfolding edge_is_right legal_transition is_experimental is_measured
edges prepared prepared = refl
edges root_preflighted prepared = refl
edges baseline_measuring prepared = refl
edges baseline_measured prepared = refl
edges applying prepared = refl
edges applied prepared = refl
edges one_shot_selecting prepared = refl
edges one_shot_selected prepared = refl
edges experimental_boot_detected prepared = refl
edges activation_preparing prepared = refl
edges zswap_disabling prepared = refl
edges zswap_parameters_applying prepared = refl
edges zswap_enabling prepared = refl
edges swap_activating prepared = refl
edges activation_verified prepared = refl
edges activation_failed prepared = refl
edges post_boot_measuring prepared = refl
edges post_boot_validated prepared = refl
edges baseline_selecting prepared = refl
edges baseline_selected prepared = refl
edges baseline_boot prepared = refl
edges baseline_verified prepared = refl
edges cleaning prepared = refl
edges restored prepared = refl
edges recovered prepared = refl
edges failed prepared = refl
edges _ _ = refl

enters :
    (t u : TransactionStage)
    → legal_transition t u ≡ true
    → is_experimental u ≡ true
    → (is_measured u ≡ true) ⊎ (is_experimental t ≡ true)
unfolding edge_is_right
enters t u h k = elim (Bool-cases (is_measured u)) [
  | inl measured ↦ inl measured
  | inr other ↦ inr (ground (arith, edges t u))
]

pub experimental-passes_measured :
    {s t : TransactionStage} (p : LegalPath s t)
    → is_experimental s ≡ false
    → is_experimental t ≡ true
    → passes_measured p ≡ true
experimental-passes_measured here h k = absurd (ground arith)
experimental-passes_measured (next {t} {u} p step) h k = elim (enters t u step k) [
  | inl now ↦ rw now
  | inr earlier ↦ ground (arith, experimental-passes_measured p h earlier)
]
