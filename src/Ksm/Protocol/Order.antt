-- ===== src/Ksm/Protocol/Order.antt =====
-- The order that the protocol enforces on any sequence of calls (crates/ksm/src/lib.rs).
use nemor.Base.{
  ℕ, zero, suc, ap, keep_if, length, ◌+◌, ◌≤◌, ◌≡◌, ◌⊎◌, inl, inr, ◌∙◌, refl, Bool, true, false,
  not, List, [], ◌∷◌, arith, is_some, is_some_and, ◌&&◌, is_blank, String, ok, is_ok, Bool-cases,
  ◌||◌,
}
use nemor.Ksm.Protocol.{
  ValidationProtocol, ValidationProtocolState, in_state, Call, default, stage, perform, audit,
  opt_in, start, stop, unmerge, ready_unmergeable, audited, duplicate_mergeable, scanner_running,
  scanner_stopped, record_audit,
}

-- The stage that a call starts from.
abbrev pub place : Call → ℕ
place (audit d p t) = 0
place opt_in = 1
place start = 2
place stop = 3
place unmerge = 4

-- A call that succeeds is made at its place and moves one stage on; a call that fails changes
-- nothing.
pub perform-stage :
    (c : Call) (p : ValidationProtocol)
    → ((stage p.state ≡ place c)
        × (stage (perform c p).0.state ≡ suc (place c))
        × ((perform c p).1 ≡ ok tt))
      ⊎ (((perform c p).0 ≡ p) × (is_ok (perform c p).1 ≡ false))
unfolding perform stage
perform-stage (audit d q t) p =
    elim (Bool-cases
      (not (in_state p ready_unmergeable) || (is_blank d || (is_blank q || is_blank t)))) [
        | inl bad ↦ inr (ground arith)
        | inr good ↦ inl (ground arith)
      ]
perform-stage opt_in p =
    elim (Bool-cases (
      not (in_state p audited)
      || (not (is_some p.decision_id)
          || (not (is_some p.plan_id) || not (is_some p.transaction_id))))) [
            | inl bad ↦ inr (ground arith)
            | inr good ↦ inl (ground arith)
          ]
perform-stage start p = elim (Bool-cases (in_state p duplicate_mergeable)) [
  | inl good ↦ inl (ground arith)
  | inr bad ↦ inr (ground arith)
]
perform-stage stop p = elim (Bool-cases (in_state p scanner_running)) [
  | inl good ↦ inl (ground arith)
  | inr bad ↦ inr (ground arith)
]
perform-stage unmerge p = elim (Bool-cases (in_state p scanner_stopped)) [
  | inl good ↦ inl (ground arith)
  | inr bad ↦ inr (ground arith)
]

-- The state after a sequence of calls, whether they succeed or not, and the places of those that do.
unfoldable pub run : List Call → ValidationProtocol → ValidationProtocol
run [] p = p
run (c ∷ cs) p = run cs (perform c p).0

unfoldable pub accepted : List Call → ValidationProtocol → List ℕ
accepted [] p = []
accepted (c ∷ cs) p = keep_if (is_ok (perform c p).1) (place c) (accepted cs (perform c p).0)

abbrev pub count_up : ℕ → ℕ → List ℕ
count_up from zero = []
count_up from (suc n) = from ∷ count_up (suc from) n

-- From stage `s` to stage `t` the accepted calls are those of the places from `s` on.
abbrev InOrder : ℕ → ℕ → List ℕ → Type 0
InOrder s t places = (places ≡ count_up s (length places)) × (t ≡ s + length places)

InOrder-cons : (s t : ℕ) (places : List ℕ) → InOrder (suc s) t places → InOrder s t (s ∷ places)
InOrder-cons s t places h = (ap (◌∷◌ s) h.0, omega arith)

run-InOrder :
    (cs : List Call) (p : ValidationProtocol)
    → InOrder (stage p.state) (stage (run cs p).state) (accepted cs p)
unfolding run accepted
run-InOrder [] p = (refl, omega arith)
run-InOrder (c ∷ cs) p = elim (perform-stage c p) [
  | inl (here, moved, done) ↦
      let ih : InOrder (suc (place c)) (stage (run cs (perform c p).0).state)
          (accepted cs (perform c p).0) =
        rw moved at (run-InOrder cs (perform c p).0) in
      rw (done, here) (InOrder-cons (place c) _ _ ih)
  | inr (same, failed) ↦ rw (failed, run, same) (run-InOrder cs p)
]

stage-le : (s : ValidationProtocolState) → stage s ≤ 5
unfolding stage
stage-le ready_unmergeable = omega arith
stage-le _ = omega arith

-- Whatever the calls, those that succeed are, in order and without repetition, the first ones of
-- audit, opt-in, start, stop and unmerge, and the protocol is at the stage after the last of them.
pub accepted-count_up :
    (cs : List Call)
    → (accepted cs default ≡ count_up 0 (stage (run cs default).state))
      × (stage (run cs default).state ≤ 5)
unfolding stage
accepted-count_up cs =
    let (places, reached) = run-InOrder cs default in
    let e : stage (run cs default).state ≡ length (accepted cs default) = omega arith in
    (rw e places, stage-le (run cs default).state)

-- The identifiers of the audit are recorded, none of them empty.
abbrev pub is_recorded : ValidationProtocol → Bool
is_recorded p =
    is_some_and p.decision_id (λ s. not (is_blank s))
    && (is_some_and p.plan_id (λ s. not (is_blank s))
        && is_some_and p.transaction_id (λ s. not (is_blank s)))

abbrev IsAudited : ValidationProtocol → Type 0
IsAudited p = (stage p.state ≡ 0) ⊎ (is_recorded p ≡ true)

record_audit-IsAudited :
    (d q t : String) (p : ValidationProtocol) → IsAudited p → IsAudited (record_audit d q t p).0
unfolding record_audit
record_audit-IsAudited d q t p h =
    elim (Bool-cases
      (not (in_state p ready_unmergeable) || (is_blank d || (is_blank q || is_blank t)))) [
        | inl bad ↦ rw bad h
        | inr good ↦ rw good (inr (ground arith))
      ]

advance :
    (c : Call) (p : ValidationProtocol)
    → is_recorded (perform c p).0 ≡ is_recorded p
    → 1 ≤ place c
    → IsAudited p
    → IsAudited (perform c p).0
advance c p kept later h = elim (perform-stage c p) [
  | inr (same, failed) ↦ rw same h
  | inl (here, moved, done) ↦ elim h [
    | inl first ↦ absurd (omega arith)
    | inr recorded ↦ inr (kept ∙ recorded)
  ]
]

perform-IsAudited : (c : Call) (p : ValidationProtocol) → IsAudited p → IsAudited (perform c p).0
unfolding perform
perform-IsAudited (audit d q t) p h = record_audit-IsAudited d q t p h
perform-IsAudited opt_in p h = advance opt_in p (ground arith) (omega arith) h
perform-IsAudited start p h = advance start p (ground arith) (omega arith) h
perform-IsAudited stop p h = advance stop p (ground arith) (omega arith) h
perform-IsAudited unmerge p h = advance unmerge p (ground arith) (omega arith) h

run-IsAudited : (cs : List Call) (p : ValidationProtocol) → IsAudited p → IsAudited (run cs p)
unfolding run
run-IsAudited [] p h = h
run-IsAudited (c ∷ cs) p h = run-IsAudited cs (perform c p).0 (perform-IsAudited c p h)

-- Past the first stage, the three identifiers of the audit are recorded, and none of them is empty.
pub run-recorded :
    (cs : List Call) → 1 ≤ stage (run cs default).state → is_recorded (run cs default) ≡ true
run-recorded cs h = elim (run-IsAudited cs default (inl (unfold stage in refl))) [
  | inl first ↦ absurd (omega arith)
  | inr recorded ↦ recorded
]
