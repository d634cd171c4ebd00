-- ===== src/Ksm/Observation/Listed.antt =====
-- Which processes the inspection lists, said of the files of each entry (crates/ksm/src/lib.rs).
use mathlib.Core.Path.{subst}
use nemor.Base.{
  ◌<◌, ◌≡◌, ◌↔◌, refl, sym, ap, ◌⊎◌, inl, inr, true, String, some, List, [], ◌∷◌, arith, take, Any,
  Bool-cases, unwrap_or, ok,
}
use nemor.Ksm.Types.{KsmProcessMetrics}
use nemor.Ksm.Observation.{
  ProcEntry, Owned, Seen, skipped, unreadable, observed, see, ExternalKsmInspection,
  classify_process_ksm_activity, inspect_external_ksm_processes_owned,
}
use nemor.Ksm.Observation.Entry.{IsCandidate, IsLive, see-IsCandidate, IsCandidate-see}
use nemor.Ksm.Observation.Reference.{
  push_seen, observations, is_live, live_of, is_residual, residual_of, mark,
  inspect_external-observations,
}

-- The metrics are in the list.
abbrev pub IsListed : KsmProcessMetrics → List KsmProcessMetrics → Type 0
IsListed m ms = Any (λ x. x ≡ m) ms

-- The process does not take part, but still has pages that are merging.
abbrev pub IsResidual : KsmProcessMetrics → Type 0
IsResidual m = (¬ (IsLive m)) × (0 < unwrap_or m.ksm_merging_pages 0)

observed_inj : (a b : KsmProcessMetrics) → observed a ≡ observed b → a ≡ b
observed_inj a b h = ground arith

push_seen-IsListed :
    (s : Seen) (m : KsmProcessMetrics) (ms : List KsmProcessMetrics)
    → IsListed m (push_seen s ms)
    → (s ≡ observed m) ⊎ IsListed m ms
push_seen-IsListed (observed x) m ms (inl e) = inl (ap observed e)
push_seen-IsListed (observed x) m ms (inr h) = inr h
push_seen-IsListed skipped m ms h = inr h
push_seen-IsListed (unreadable e) m ms h = inr h

IsListed-push_seen :
    (s : Seen) (m : KsmProcessMetrics) (ms : List KsmProcessMetrics)
    → (s ≡ observed m) ⊎ IsListed m ms
    → IsListed m (push_seen s ms)
IsListed-push_seen (observed x) m ms (inl e) = inl (observed_inj x m e)
IsListed-push_seen (observed x) m ms (inr h) = inr h
IsListed-push_seen skipped m ms (inl e) = absurd (cc)
IsListed-push_seen skipped m ms (inr h) = h
IsListed-push_seen (unreadable x) m ms (inl e) = absurd (cc)
IsListed-push_seen (unreadable x) m ms (inr h) = h

observations-IsCandidate :
    (excluded : Owned) (es : List ProcEntry) (m : KsmProcessMetrics)
    → IsListed m (observations excluded es)
    → Any (IsCandidate excluded m) es
observations-IsCandidate excluded [] m h = h
observations-IsCandidate excluded (e ∷ es) m h =
    elim (push_seen-IsListed (see excluded e) m (observations excluded es) h) [
      | inl p ↦ inl (see-IsCandidate excluded e m p)
      | inr q ↦ inr (observations-IsCandidate excluded es m q)
    ]

IsCandidate-observations :
    (excluded : Owned) (es : List ProcEntry) (m : KsmProcessMetrics)
    → Any (IsCandidate excluded m) es
    → IsListed m (observations excluded es)
IsCandidate-observations excluded [] m h = h
IsCandidate-observations excluded (e ∷ es) m (inl p) =
    IsListed-push_seen (see excluded e) m (observations excluded es)
      (inl (IsCandidate-see excluded e m p))
IsCandidate-observations excluded (e ∷ es) m (inr q) =
    IsListed-push_seen (see excluded e) m (observations excluded es)
      (inr (IsCandidate-observations excluded es m q))

classify-IsLive :
    (m : KsmProcessMetrics) → is_live (classify_process_ksm_activity m) ≡ true → IsLive m
unfolding classify_process_ksm_activity
classify-IsLive m h = ground arith

IsLive-classify :
    (m : KsmProcessMetrics) → IsLive m → is_live (classify_process_ksm_activity m) ≡ true
unfolding classify_process_ksm_activity
IsLive-classify m h = ground arith

classify-IsResidual :
    (m : KsmProcessMetrics) → is_residual (classify_process_ksm_activity m) ≡ true → IsResidual m
unfolding classify_process_ksm_activity
classify-IsResidual m h = (λ l. let k = IsLive-classify m l in absurd (ground arith), ground arith)

IsResidual-classify :
    (m : KsmProcessMetrics) → IsResidual m → is_residual (classify_process_ksm_activity m) ≡ true
unfolding classify_process_ksm_activity
IsResidual-classify m (dead, pages) =
    elim (Bool-cases (is_live (classify_process_ksm_activity m))) [
      | inl l ↦ absurd (dead (classify-IsLive m l))
      | inr l ↦ ground arith
    ]

live_of-IsLive :
    (ms : List KsmProcessMetrics) (m : KsmProcessMetrics)
    → IsListed m (live_of ms)
    → IsListed m ms × IsLive m
live_of-IsLive [] m h = absurd h
live_of-IsLive (x ∷ ms) m h = elim (Bool-cases (is_live (classify_process_ksm_activity x))) [
  | inl l ↦ elim (rw l at h) [
    | inl e ↦ (inl e, subst IsLive e (classify-IsLive x l))
    | inr r ↦ let (a, b) = live_of-IsLive ms m r in (inr a, b)
  ]
  | inr l ↦ let (a, b) = live_of-IsLive ms m (rw l at h) in (inr a, b)
]

IsLive-live_of :
    (ms : List KsmProcessMetrics) (m : KsmProcessMetrics)
    → IsListed m ms
    → IsLive m
    → IsListed m (live_of ms)
IsLive-live_of [] m h l = h
IsLive-live_of (x ∷ ms) m (inl e) l = rw (IsLive-classify x (subst IsLive (sym e) l)) (inl e)
IsLive-live_of (x ∷ ms) m (inr r) l =
    elim (Bool-cases (is_live (classify_process_ksm_activity x))) [
      | inl p ↦ rw p (inr (IsLive-live_of ms m r l))
      | inr p ↦ rw p (IsLive-live_of ms m r l)
    ]

-- The metrics are those of an observed process with residual accounting, and marked so.
abbrev pub IsMarked : (KsmProcessMetrics → Type 0) → KsmProcessMetrics → Type 0
IsMarked P m = (x : KsmProcessMetrics) × P x × IsResidual x × (mark x ≡ m)

residual_of-IsMarked :
    (ms : List KsmProcessMetrics) (m : KsmProcessMetrics)
    → IsListed m (residual_of ms)
    → IsMarked (λ x. IsListed x ms) m
residual_of-IsMarked [] m h = absurd h
residual_of-IsMarked (x ∷ ms) m h =
    elim (Bool-cases (is_residual (classify_process_ksm_activity x))) [
      | inl l ↦ elim (rw l at h) [
        | inl e ↦ (x, inl refl, classify-IsResidual x l, e)
        | inr r ↦ let (y, a, b, e) = residual_of-IsMarked ms m r in (y, inr a, b, e)
      ]
      | inr l ↦ let (y, a, b, e) = residual_of-IsMarked ms m (rw l at h) in (y, inr a, b, e)
    ]

IsMarked-residual_of :
    (ms : List KsmProcessMetrics) (x : KsmProcessMetrics)
    → IsListed x ms
    → IsResidual x
    → IsListed (mark x) (residual_of ms)
IsMarked-residual_of [] x h l = h
IsMarked-residual_of (y ∷ ms) x (inl e) l =
    rw (IsResidual-classify y (subst IsResidual (sym e) l)) (inl (ap mark e))
IsMarked-residual_of (y ∷ ms) x (inr r) l =
    elim (Bool-cases (is_residual (classify_process_ksm_activity y))) [
      | inl p ↦ rw p (inr (IsMarked-residual_of ms x r l))
      | inr p ↦ rw p (IsMarked-residual_of ms x r l)
    ]

-- An inspection that succeeds lists as live exactly those processes among the first 4096 entries
-- that are not owned with their start time, have readable mappings that are not empty, and take
-- part in KSM by a flag or by their mapped pages; and as residual exactly those that do not take
-- part but have pages that are merging, marked as residual.
pub inspect_external-IsListed :
    (root : String) (entries : List ProcEntry) (excluded : Owned) (r : ExternalKsmInspection)
    (m : KsmProcessMetrics)
    → inspect_external_ksm_processes_owned root (some entries) excluded ≡ ok r
    → (IsListed m r.live_consumers ↔ Any (IsCandidate excluded m) (take 4096 entries) × IsLive m)
      × (IsListed m r.residual_processes
          ↔ IsMarked (λ x. Any (IsCandidate excluded x) (take 4096 entries)) m)
inspect_external-IsListed root entries excluded r m h =
    let es = take 4096 entries in
    let (live, residual) = inspect_external-observations root entries excluded r h in
    (
      (
        λ p.
            let (a, b) = live_of-IsLive (observations excluded es) m (subst (IsListed m) live p) in
            (observations-IsCandidate excluded es m a, b),
        λ (a, b). subst (IsListed m) (sym live) (
            IsLive-live_of (observations excluded es) m (IsCandidate-observations excluded es m a)
              b),
      ),
      (
        λ p.
            let (x, a, b, e) =
              residual_of-IsMarked (observations excluded es) m (subst (IsListed m) residual p) in
            (x, observations-IsCandidate excluded es x a, b, e),
        λ (x, a, b, e). subst (IsListed m) (sym residual) (
            subst (λ y. IsListed y (residual_of (observations excluded es))) e
              (IsMarked-residual_of (observations excluded es) x
                (IsCandidate-observations excluded es x a) b)),
      ),
    )
