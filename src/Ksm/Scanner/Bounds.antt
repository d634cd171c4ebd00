-- ===== src/Ksm/Scanner/Bounds.antt =====
-- What a scanner plan, and a passed profit gate stand for (crates/ksm/src/lib.rs).
use nemor.Base.{
  ℕ, ◌≤◌, ◌≡◌, ◌↔◌, Bool, true, false, not, ◌&&◌, ◌||◌, [], arith, ltb, ◌==◌, is_empty,
  is_empty-push_if, push_if, String, is_ok,
}
use nemor.Base.Chars.{Chars}
use nemor.Base.Integer.{ℤ, pos, leb_ℤ}
use nemor.Ksm.Scanner.{plan_scanner, validation_profit_gate, validation_min_saved_bytes}

-- A plan is made exactly for a request within the bounds.
pub plan_scanner_iff :
    (text : Chars) (pages sleep min_pages max_pages min_sleep : ℕ)
    → (is_ok (plan_scanner text pages sleep min_pages max_pages min_sleep) ≡ true)
      ↔ ((min_pages ≤ pages) × (pages ≤ max_pages) × (min_sleep ≤ sleep))
unfolding plan_scanner
plan_scanner_iff text pages sleep min_pages max_pages min_sleep =
    ((λ h. ground arith), (λ h. ground arith))

gate_reasons :
    (a b c d : Bool)
    → is_empty {A = String} (
        push_if d "non_positive_process_profit" (
          push_if c "non_positive_system_profit"
            (push_if b "scanner_no_progress" (push_if a "insufficient_saved_bytes" []))))
      ≡ (not d && (not c && (not b && (not a && true))))
gate_reasons a b c d = simp is_empty-push_if

-- The gate passes exactly if enough bytes are saved, pages were scanned, a full scan was made, and
-- the profit of the system and of the processes is positive.
pub validation_profit_gate_iff :
    (saved scanned scans : ℕ) (profit : ℤ) (positive : Bool)
    → ((validation_profit_gate saved scanned scans profit positive).passed ≡ true) ↔ (
        (validation_min_saved_bytes ≤ saved)
        × (1 ≤ scanned)
        × (1 ≤ scans)
        × (leb_ℤ profit (pos 0) ≡ false)
        × (positive ≡ true))
unfolding validation_profit_gate
validation_profit_gate_iff saved scanned scans profit positive =
    let e =
      gate_reasons (ltb saved validation_min_saved_bytes) ((scanned == 0) || (scans == 0))
        (leb_ℤ profit (pos 0)) (not positive) in
    ((λ h. ground arith), (λ h. ground arith))
