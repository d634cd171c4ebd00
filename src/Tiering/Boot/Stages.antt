-- ===== src/Tiering/Boot/Stages.antt =====
-- The stages of a boot validation and the legal transitions between them
-- (crates/tiering/src/boot_validation_v6.rs).
pub mod Paths
use nemor.Base.{Bool, true, false}

pub data TransactionStage : Type 0 where
  prepared root_preflighted baseline_measuring baseline_measured applying : TransactionStage
  applied one_shot_selecting one_shot_selected experimental_boot_detected : TransactionStage
  activation_preparing zswap_disabling zswap_parameters_applying : TransactionStage
  zswap_enabling swap_activating activation_verified activation_failed : TransactionStage
  post_boot_measuring post_boot_validated baseline_selecting baseline_selected : TransactionStage
  baseline_boot baseline_verified cleaning restored recovered failed : TransactionStage

-- The pairs of the source, grouped by the stage that is left; `(_, Failed)` comes first.
unfoldable pub legal_transition : TransactionStage → TransactionStage → Bool
legal_transition _ failed = true
legal_transition prepared root_preflighted = true
legal_transition prepared recovered = true
legal_transition root_preflighted baseline_measuring = true
legal_transition root_preflighted recovered = true
legal_transition baseline_measuring baseline_measured = true
legal_transition baseline_measuring recovered = true
legal_transition baseline_measured applying = true
legal_transition baseline_measured recovered = true
legal_transition applying applied = true
legal_transition applying recovered = true
legal_transition applied one_shot_selecting = true
legal_transition applied recovered = true
legal_transition one_shot_selecting one_shot_selected = true
legal_transition one_shot_selecting recovered = true
legal_transition one_shot_selected experimental_boot_detected = true
legal_transition one_shot_selected recovered = true
legal_transition experimental_boot_detected activation_preparing = true
legal_transition activation_preparing zswap_disabling = true
legal_transition activation_preparing activation_failed = true
legal_transition activation_preparing baseline_selecting = true
legal_transition activation_preparing recovered = true
legal_transition zswap_disabling zswap_parameters_applying = true
legal_transition zswap_disabling activation_failed = true
legal_transition zswap_disabling baseline_selecting = true
legal_transition zswap_disabling recovered = true
legal_transition zswap_parameters_applying zswap_parameters_applying = true
legal_transition zswap_parameters_applying zswap_enabling = true
legal_transition zswap_parameters_applying activation_failed = true
legal_transition zswap_parameters_applying baseline_selecting = true
legal_transition zswap_parameters_applying recovered = true
legal_transition zswap_enabling swap_activating = true
legal_transition zswap_enabling activation_failed = true
legal_transition zswap_enabling baseline_selecting = true
legal_transition zswap_enabling recovered = true
legal_transition swap_activating activation_verified = true
legal_transition swap_activating activation_failed = true
legal_transition swap_activating baseline_selecting = true
legal_transition swap_activating recovered = true
legal_transition activation_verified post_boot_measuring = true
legal_transition activation_verified baseline_selecting = true
legal_transition activation_failed baseline_selecting = true
legal_transition activation_failed recovered = true
legal_transition post_boot_measuring post_boot_validated = true
legal_transition post_boot_measuring baseline_selecting = true
legal_transition post_boot_validated baseline_selecting = true
legal_transition baseline_selecting baseline_selected = true
legal_transition baseline_selected baseline_boot = true
legal_transition baseline_boot baseline_verified = true
legal_transition baseline_verified cleaning = true
legal_transition baseline_verified recovered = true
legal_transition cleaning restored = true
legal_transition cleaning recovered = true
legal_transition failed baseline_selecting = true
legal_transition failed recovered = true
legal_transition _ _ = false
