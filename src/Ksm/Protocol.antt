-- ===== src/Ksm/Protocol.antt =====
-- `ValidationProtocol` (crates/ksm/src/lib.rs): the audit, the opt-in, the scanner and the clean-up
-- follow one another.
pub mod Order
use nemor.Base.{
  ℕ, Bool, true, false, not, ◌&&◌, ◌||◌, ◌==◌, String, Option, none, some, is_some, is_blank,
  if◌then◌else◌, Result, ok, err,
}
use nemor.Base.Proc.{Proc, ◌>>◌, refuse, modify}
use nemor.Ksm.Types.{KsmError, not_safe}

pub data ValidationProtocolState : Type 0 where
  ready_unmergeable audited duplicate_mergeable scanner_running : ValidationProtocolState
  scanner_stopped unmerged : ValidationProtocolState

pub record ValidationProtocol : Type 0 where
  pub state : ValidationProtocolState
  pub decision_id : Option String
  pub plan_id : Option String
  pub transaction_id : Option String

abbrev pub default : ValidationProtocol
default = record {
  state = ready_unmergeable;
  decision_id = none;
  plan_id = none;
  transaction_id = none;
}

-- The derived equality of the states, by their place among the variants.
unfoldable pub stage : ValidationProtocolState → ℕ
stage ready_unmergeable = 0
stage audited = 1
stage duplicate_mergeable = 2
stage scanner_running = 3
stage scanner_stopped = 4
stage unmerged = 5

abbrev pub in_state : ValidationProtocol → ValidationProtocolState → Bool
in_state p s = stage p.state == stage s

abbrev pub Step : Type 0
Step = Proc ValidationProtocol KsmError (Unit {0})

unfoldable pub record_audit : String → String → String → Step
unfolding stage
record_audit decision plan transaction p =
    (do
      refuse
          (not (in_state p ready_unmergeable)
            || (is_blank decision || (is_blank plan || is_blank transaction)))
          (not_safe "audit_missing")
      modify λ p. record p {
        decision_id = some decision;
        plan_id = some plan;
        transaction_id = some transaction;
        state = audited;
      })
      p

unfoldable pub opt_in_duplicate : Step
unfolding stage
opt_in_duplicate p =
    (do
      refuse
          (not (in_state p audited)
            || (not (is_some p.decision_id)
                || (not (is_some p.plan_id) || not (is_some p.transaction_id))))
          (not_safe "audit_missing")
      modify λ p. record p { state = duplicate_mergeable })
      p

unfoldable pub scanner_started : Step
unfolding stage
scanner_started p =
    (do
      refuse (not (in_state p duplicate_mergeable)) (not_safe "mergeable_scope_invalid")
      modify λ p. record p { state = scanner_running })
      p

unfoldable pub scanner_has_stopped : Step
unfolding stage
scanner_has_stopped p =
    (do
      refuse (not (in_state p scanner_running)) (not_safe "scanner_ownership_lost")
      modify λ p. record p { state = scanner_stopped })
      p

unfoldable pub finish_unmerge : Step
unfolding stage
finish_unmerge p =
    (do
      refuse (not (in_state p scanner_stopped)) (not_safe "cleanup_failure")
      modify λ p. record p { state = unmerged })
      p

-- The calls a validation makes, in any order.
pub data Call : Type 0 where
  audit : String → String → String → Call
  opt_in start stop unmerge : Call

unfoldable pub perform : Call → Step
unfolding record_audit opt_in_duplicate scanner_started scanner_has_stopped finish_unmerge
perform (audit decision plan transaction) = record_audit decision plan transaction
perform opt_in = opt_in_duplicate
perform start = scanner_started
perform stop = scanner_has_stopped
perform unmerge = finish_unmerge
