-- ===== src/Ksm/Types.antt =====
-- Errors, identities and measurements of processes under KSM, kernel same-page merging
-- (crates/ksm/src/lib.rs).
use nemor.Base.{ℕ, Bool, String, Option, ◌+++◌, decimal}
use nemor.Base.Integer.{ℤ}

pub data KsmError : Type 0 where
  unsupported not_safe invalid io : String → KsmError

abbrev pub rule_version : String
rule_version = "selective-ksm-v1"

abbrev pub page_size : ℕ
page_size = 4096

pub record StableProcessIdentity : Type 0 where
  pub pid : ℕ
  pub start_ticks : ℕ
  pub stable_key : String

unfoldable pub owned_validation_identity : String → ℕ → ℕ → StableProcessIdentity
owned_validation_identity session_id pid start_ticks = record {
  pid = pid;
  start_ticks = start_ticks;
  stable_key =
      "nemor-owned:" +++ session_id +++ ":" +++ decimal pid +++ ":" +++ decimal start_ticks;
}

pub data KsmProfileKind : Type 0 where
  vm browser electron synthetic unknown : KsmProfileKind

pub record KsmProcessMetrics : Type 0 where
  pub identity : StableProcessIdentity
  pub profile : Option KsmProfileKind
  pub ksm_rmap_items : Option ℕ
  pub ksm_zero_pages : Option ℕ
  pub ksm_merging_pages : Option ℕ
  pub ksm_process_profit : Option ℤ
  pub ksm_merge_any : Option Bool
  pub ksm_mergeable : Option Bool
  pub current_mapped_ksm_bytes : Option ℕ
  pub residual_accounting : Bool
  pub rss_bytes : Option ℕ
  pub pss_bytes : Option ℕ
