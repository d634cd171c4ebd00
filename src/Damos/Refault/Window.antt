-- ===== src/Damos/Refault/Window.antt =====
-- When a target is blacklisted, and for how long (crates/damos/src/lib.rs).
use nemor.Base.{
  ℕ, ◌+◌, ◌≤◌, ◌<◌, ◌≡◌, ◌↔◌, Bool, true, some, arith, is_some, Option-cases, inl, inr,
}
use nemor.Damos.Refault.{RefaultEvidence, BlacklistRecord, active, blacklist_for_refault}

-- A target is blacklisted exactly after a successful reclaim of some bytes with valid content, whose
-- first access `at` came with resident or swap evidence and within the window after the action.
pub blacklisted_iff :
    (e : RefaultEvidence) (reclaimed : Bool) (created expires window : ℕ)
    → (is_some (blacklist_for_refault e reclaimed created expires window) ≡ true) ↔ (
        (reclaimed ≡ true)
        × (0 < e.applied_bytes)
        × (e.content_valid ≡ true)
        × (e.rss_or_swap_evidence ≡ true)
        × ((at : ℕ) × (e.first_access_timestamp_ns ≡ some at)
            × (e.action_timestamp_ns ≤ at)
            × (at ≤ e.action_timestamp_ns + window)))
unfolding blacklist_for_refault
blacklisted_iff e reclaimed created expires window =
    elim (Option-cases e.first_access_timestamp_ns) [
      | inl n ↦ ((λ h. absurd (ground arith)), (λ (_, _, _, _, (at, p, _, _)). absurd (cc)))
      | inr (at, p) ↦ (
        (λ h. (
          ground arith,
          ground arith,
          ground arith,
          ground arith,
          (at, p, ground arith, ground arith),
        )),
        (λ (a, b, c, d, (x, q, f, g)). ground arith),
      )
    ]

-- The record is in force exactly from its creation up to and without its expiry.
pub blacklist_in_force :
    (e : RefaultEvidence) (reclaimed : Bool) (created expires window now : ℕ) {r : BlacklistRecord}
    → blacklist_for_refault e reclaimed created expires window ≡ some r
    → (active r now ≡ true) ↔ ((created ≤ now) × (now < expires))
unfolding blacklist_for_refault active
blacklist_in_force e reclaimed created expires window now h =
    ((λ k. ground arith), (λ k. ground arith))
