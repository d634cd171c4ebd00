-- ===== src/Ksm/Scanner.antt =====
-- The scanner's plan and the decisions of a validation run (crates/ksm/src/lib.rs).
pub mod Bounds
use nemor.Base.{
  ℕ, zero, suc, Bool, true, false, not, ◌&&◌, ◌||◌, String, Option, none, some, List, [], ◌∷◌, ◌-◌,
  ltb, leb, ◌==◌, is_empty, push_if, if◌then◌else◌, Result, ok, err, ◌>>◌, reject,
}
use nemor.Base.Chars.{Chars, codes, chars_eq, trim, split_whitespace, strip_prefix}
use nemor.Base.Integer.{ℤ, pos, leb_ℤ}
use nemor.Ksm.Types.{KsmError, not_safe}
use nemor.Ksm.Backend.{KsmSnapshot}

-- `strip_suffix` of one character.
cons_opt : ℕ → Option Chars → Option Chars
cons_opt c none = none
cons_opt c (some cs) = some (c ∷ cs)

unfoldable pub strip_last : ℕ → Chars → Option Chars
unfolding cons_opt
strip_last mark [] = none
strip_last mark (c ∷ cs) =
    if is_empty cs then (if c == mark then some [] else none) else cons_opt c (strip_last mark cs)

in_brackets : Option Chars → Option Chars
in_brackets none = none
in_brackets (some rest) = strip_last b']' rest

or_else : Option Chars → Chars → Chars
or_else (some word) rest = word
or_else none rest = rest

-- The first word in brackets, or the whole text.
unfoldable pub first_selected : List Chars → Chars → Chars
unfolding strip_last in_brackets or_else
first_selected [] fallback = fallback
first_selected (w ∷ ws) fallback =
    or_else (in_brackets (strip_prefix (codes "[") w)) (first_selected ws fallback)

unfoldable pub current_selection : Chars → Chars
unfolding first_selected
current_selection value = first_selected (split_whitespace value) (trim value)

pub data AdvisorMode : Type 0 where
  fixed scan_time unknown : AdvisorMode

unfoldable pub advisor_mode : Chars → AdvisorMode
advisor_mode selected =
    if chars_eq selected (codes "none")
    then fixed
    else if chars_eq selected (codes "scan-time")
    then scan_time
    else unknown

abbrev pub is_fixed : AdvisorMode → Bool
is_fixed fixed = true
is_fixed _ = false

pub record ScannerPlan : Type 0 where
  pub mode : AdvisorMode
  pub pages_to_scan : ℕ
  pub sleep_millisecs : ℕ
  pub owned_validation_only : Bool
  pub blocked_reasons : List String

unfoldable pub plan_scanner :
    Chars
    → (requested_pages requested_sleep : ℕ) → (min_pages max_pages min_sleep : ℕ)
    → Result KsmError ScannerPlan
unfolding current_selection advisor_mode
plan_scanner mode_text requested_pages requested_sleep min_pages max_pages min_sleep =
    let mode = advisor_mode (current_selection mode_text) in
    do
      reject
          (ltb requested_pages min_pages
            || (ltb max_pages requested_pages || ltb requested_sleep min_sleep))
          (not_safe "scanner bounds")
      ok (record {
        mode = mode;
        pages_to_scan = requested_pages;
        sleep_millisecs = requested_sleep;
        owned_validation_only = true;
        blocked_reasons = push_if (not (is_fixed mode)) "advisor_mode_not_fixed" [];
      })

unfoldable pub plan_attempt_one_scanner :
    Chars → KsmSnapshot → (min_pages max_pages min_sleep : ℕ) → Result KsmError ScannerPlan
unfolding plan_scanner
plan_attempt_one_scanner advisor_text baseline =
    plan_scanner advisor_text baseline.pages_to_scan baseline.sleep_millisecs

pub data UnmergeDisposition : Type 0 where
  madvise_owned_range terminate_owned_child : UnmergeDisposition

unfoldable pub choose_unmerge_disposition : ℕ → ℕ → UnmergeDisposition
choose_unmerge_disposition available required =
    if leb required available then madvise_owned_range else terminate_owned_child

pub data LiveSafetyDecision : Type 0 where
  go_on stop_owned_scanner_and_fail : LiveSafetyDecision

unfoldable pub evaluate_live_safety : ℕ → Bool → LiveSafetyDecision
evaluate_live_safety processes global_state_owned =
    if ltb 0 processes || not global_state_owned then stop_owned_scanner_and_fail else go_on

unfoldable pub content_fingerprints_intact :
    (initial_duplicate final_duplicate initial_control final_control : ℕ) → Bool
content_fingerprints_intact initial_duplicate final_duplicate initial_control final_control =
    (initial_duplicate == final_duplicate) && (initial_control == final_control)

pub record ValidationProfitGate : Type 0 where
  pub saved_bytes : ℕ
  pub pages_scanned_delta : ℕ
  pub full_scans_delta : ℕ
  pub system_profit_delta : ℤ
  pub processes_positive : Bool
  pub passed : Bool
  pub reasons : List String

abbrev pub validation_min_saved_bytes : ℕ
validation_min_saved_bytes = 8388608

unfoldable pub validation_profit_gate : ℕ → ℕ → ℕ → ℤ → Bool → ValidationProfitGate
validation_profit_gate saved scanned scans profit positive =
    let r1 = push_if (ltb saved validation_min_saved_bytes) "insufficient_saved_bytes" [] in
    let r2 = push_if ((scanned == 0) || (scans == 0)) "scanner_no_progress" r1 in
    let r3 = push_if (leb_ℤ profit (pos 0)) "non_positive_system_profit" r2 in
    let reasons = push_if (not positive) "non_positive_process_profit" r3 in
    record {
      saved_bytes = saved;
      pages_scanned_delta = scanned;
      full_scans_delta = scans;
      system_profit_delta = profit;
      processes_positive = positive;
      passed = is_empty reasons;
      reasons = reasons;
    }
