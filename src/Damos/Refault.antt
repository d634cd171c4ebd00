-- ===== src/Damos/Refault.antt =====
-- Early refaults and the blacklist (crates/damos/src/lib.rs). Times of 128 bits are natural numbers;
-- the one subtraction is guarded.
pub mod Window
use nemor.Base.{
  ℕ, ◌-◌, Bool, true, false, not, ◌&&◌, String, ◌+++◌, Option, none, some, ltb, leb, is_some_and,
  if◌then◌else◌,
}

pub record RefaultEvidence : Type 0 where
  pub action_id : String
  pub target_key : String
  pub region_signature : String
  pub applied_bytes : ℕ
  pub action_timestamp_ns : ℕ
  pub first_access_timestamp_ns : Option ℕ
  pub rss_or_swap_evidence : Bool
  pub content_valid : Bool

pub data RefaultState : Type 0 where
  not_evaluated not_observed observed : RefaultState

unfoldable pub early : RefaultEvidence → ℕ → Bool
early e window_ns =
    ltb 0 e.applied_bytes
    && (e.content_valid
        && (is_some_and e.first_access_timestamp_ns
              (λ at. leb e.action_timestamp_ns at && leb (at - e.action_timestamp_ns) window_ns)
            && e.rss_or_swap_evidence))

unfoldable pub state : RefaultEvidence → Bool → ℕ → RefaultState
unfolding early
state e successful_reclaim window_ns =
    if not successful_reclaim
    then not_evaluated
    else if early e window_ns
    then observed
    else not_observed

pub record BlacklistRecord : Type 0 where
  pub key : String
  pub reason : String
  pub created_at_ns : ℕ
  pub expires_at_ns : ℕ
  pub source_action_id : String
  pub evidence : RefaultEvidence

unfoldable pub active : BlacklistRecord → ℕ → Bool
active r now_ns = leb r.created_at_ns now_ns && ltb now_ns r.expires_at_ns

abbrev is_observed : RefaultState → Bool
is_observed observed = true
is_observed _ = false

unfoldable pub blacklist_for_refault : RefaultEvidence → Bool → ℕ → ℕ → ℕ → Option BlacklistRecord
unfolding state
blacklist_for_refault evidence successful_reclaim created_at_ns expires_at_ns refault_window_ns =
    if is_observed (state evidence successful_reclaim refault_window_ns)
    then some (record {
      key = evidence.target_key +++ (":" +++ evidence.region_signature);
      reason = "early_refault_blacklist";
      created_at_ns = created_at_ns;
      expires_at_ns = expires_at_ns;
      source_action_id = evidence.action_id;
      evidence = evidence;
    })
    else none
