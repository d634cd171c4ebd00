-- ===== src/Damos/Recovery.antt =====
-- Recovery of an owned session and the simulated crash (crates/damos/src/lib.rs).
pub mod Ownership
use nemor.Base.{ℕ, Bool, true, false, not, ◌||◌, String, Result, ok, err, if◌then◌else◌}
use text.Mathlib.Text.{starts_with}
use nemor.Damos.Types.{DamosError, invalid, StableTargetIdentity}

pub record OwnedSession : Type 0 where
  pub session_id : String
  pub target : StableTargetIdentity
  pub kdamond_index : ℕ
  pub scheme_id : ℕ
  pub state_on : Bool
  pub interrupted : Bool

pub data TransactionStage : Type 0 where
  decision_recorded kdamond_allocated scheme_allocated scheme_configured state_on first_pageout
        before_stop cleanup :
      TransactionStage

pub record RecoveryOutcome : Type 0 where
  pub stopped_owned_kdamond : Bool
  pub removed_owned_scheme : Bool
  pub external_untouched : Bool
  pub pageout_not_undone : Bool
  pub recorded_interrupted : Bool

-- The two `matches!` on the stage.
unfoldable pub kdamond_runs : TransactionStage → Bool
kdamond_runs state_on = true
kdamond_runs first_pageout = true
kdamond_runs before_stop = true
kdamond_runs cleanup = true
kdamond_runs _ = false

unfoldable pub only_recorded : TransactionStage → Bool
only_recorded decision_recorded = true
only_recorded _ = false

unfoldable pub simulated_crash_recovery : TransactionStage → RecoveryOutcome
unfolding kdamond_runs only_recorded
simulated_crash_recovery stage = record {
  stopped_owned_kdamond = kdamond_runs stage;
  removed_owned_scheme = not (only_recorded stage);
  external_untouched = true;
  pageout_not_undone = true;
  recorded_interrupted = true;
}

-- The session afterwards, and whether anything changed.
unfoldable pub recover_owned : OwnedSession → String → OwnedSession × Result DamosError Bool
recover_owned s expected_prefix =
    if not (starts_with s.session_id expected_prefix) || not s.target.owned
    then (s, err (invalid "refusing recovery of non-owned session"))
    else (record s { state_on = false; interrupted = false }, ok (s.state_on || s.interrupted))
