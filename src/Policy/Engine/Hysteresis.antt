-- ===== src/Policy/Engine/Hysteresis.antt =====
-- A change of state rests on evidence that lasted (crates/policy-engine/src/policy.rs, transition.rs).
use mathlib.Core.Path.{subst}
use nemor.Base.{
  ap, ◌∙◌, is_some_and, unwrap_or, if◌then◌else◌, ℕ, ◌+◌, ◌*◌, ◌≤◌, ◌<◌, ◌≡◌, refl, sym, ◌≢◌, ◌⊎◌,
  inl, inr, Bool, true, false, not, Option, none, some, List, [], ◌∷◌, arith, min, ok, err,
  Bool-cases,
}
use nemor.Base.Float.{Float}
use nemor.Base.Integer.{ℤ-cases, ℤ, pos, ltb_ℤ, leb_ℤ, saturating_sub, i64_max}
use nemor.Common.Config.{PressureConfig}
use nemor.Policy.State.{PressureState, PersistentState}
use nemor.Policy.Features.{PolicyInput, validate}
use nemor.Policy.Transition.{
  transition, recovery_target, target, sufficient, seconds_ns, hold_seconds, is_immediate, since,
  state_eq,
}
use nemor.Policy.Transition.Order.{state_eq_iff}
use nemor.Policy.Transition.Hold.{desired, transition-changed, transition-candidate, held_since}
use nemor.Policy.Engine.{PolicyEngine, new, decide, evaluate, run}

module _ {F : Type 0} (fl : Float F) (c : PressureConfig F) where
  -- `evaluate` takes the input in a state entered at that time.
  abbrev pub accepts : ℤ → PolicyInput F → Bool
  accepts entered i = elim (validate fl i) [
    | err _ ↦ false
    | ok _ ↦ not (ltb_ℤ i.timestamp_ns entered)
  ]

  -- Going back from the newest input to one taken at the time `t`, every accepted input had
  -- sufficient telemetry and made `d` the desired state from the state `s`.
  abbrev pub Backed : PressureState → ℤ → PressureState → ℤ → List (PolicyInput F × Bool) → Type 0
  Backed s entered d t [] = ⊥
  Backed s entered d t ((i, _) ∷ older) =
      ((accepts entered i ≡ false) × Backed s entered d t older)
      ⊎ ((accepts entered i ≡ true)
          × (sufficient i ≡ true)
          × (recovery_target s (target fl i c) ≡ d)
          × ((i.timestamp_ns ≡ t) ⊎ Backed s entered d t older))

  -- The candidate of a state is backed by the history.
  abbrev Held :
      PressureState → ℤ → Option PressureState → Option ℤ → List (PolicyInput F × Bool) → Type 0
  Held s entered none t h = Unit {0}
  Held s entered (some d) none h = ⊥
  Held s entered (some d) (some t) h = (d ≢ s) × Backed s entered d t h

  abbrev HeldState : PersistentState → List (PolicyInput F × Bool) → Type 0
  HeldState s h = Held s.current s.entered_at_ns s.candidate s.candidate_since_ns h

  Held-since :
      (current : PressureState) (entered : ℤ) (candidate : Option PressureState) (start : Option ℤ)
      (d : PressureState) (now : ℤ) (h : List (PolicyInput F × Bool))
      → Held current entered candidate start h
      → let t = if is_some_and candidate (λ x. state_eq x d) then unwrap_or start now else now in
        (now ≡ t) ⊎ Backed current entered d t h
  Held-since current entered none start d now h k = inl refl
  Held-since current entered (some x) none d now h k = absurd k
  Held-since current entered (some x) (some t) d now h (_, b) = elim (Bool-cases (state_eq x d)) [
    | inl same ↦
        rw same (inr (subst (λ y. Backed current entered y t h) ((state_eq_iff x d).0 same) b))
    | inr other ↦ rw other (inl refl)
  ]

  since-Backed :
      (s : PersistentState) (d : PressureState) (now : ℤ) (h : List (PolicyInput F × Bool))
      → HeldState s h
      → (now ≡ since s d now) ⊎ Backed s.current s.entered_at_ns d (since s d now) h
  unfolding since
  since-Backed s d now h k =
      Held-since s.current s.entered_at_ns s.candidate s.candidate_since_ns d now h k

  Held-skip :
      (current : PressureState) (entered : ℤ) (candidate : Option PressureState) (start : Option ℤ)
      (i : PolicyInput F × Bool) (h : List (PolicyInput F × Bool))
      → accepts entered i.0 ≡ false
      → Held current entered candidate start h
      → Held current entered candidate start (i ∷ h)
  Held-skip current entered none start i h r k = tt
  Held-skip current entered (some d) none i h r k = k
  Held-skip current entered (some d) (some t) i h r (n, b) = (n, inl (r, b))

  Held-along :
      {s s' : PressureState} {e e' : ℤ} {d d' : Option PressureState} {t t' : Option ℤ}
      (h : List (PolicyInput F × Bool))
      → s' ≡ s
      → e' ≡ e
      → d' ≡ d
      → t' ≡ t
      → Held s e d t h
      → Held s' e' d' t' h
  Held-along {s = s} {e = e} {e' = e'} {d = d} {d' = d'} {t = t} {t' = t'} h p q r u k =
      subst (λ x. Held x e' d' t' h) (sym p)
        (subst (λ x. Held s x d' t' h) (sym q)
          (subst (λ x. Held s e x t' h) (sym r) (subst (λ x. Held s e d x h) (sym u) k)))

  transition-Held :
      (s : PersistentState) (i : PolicyInput F) (o : Bool) (h : List (PolicyInput F × Bool))
      → accepts s.entered_at_ns i ≡ true
      → HeldState s h
      → HeldState (transition fl s i c).state ((i, o) ∷ h)
  transition-Held s i o h a k = elim (transition-candidate fl s i c) [
    | inl e ↦
        let r = (transition fl s i c).state in
        subst (λ x. Held r.current r.entered_at_ns x r.candidate_since_ns ((i, o) ∷ h)) (sym e) tt
    | inr (_, suff, n, cur, ent, e, t) ↦
        Held-along {s = s.current} {e = s.entered_at_ns} ((i, o) ∷ h) cur ent e t
          (n, inr (a, suff, refl, since-Backed s (desired fl s i c) i.timestamp_ns h k))
  ]

  evaluate_accepted :
      (e : PolicyEngine F) (i : PolicyInput F) (o : Bool)
      → ((accepts e.state.entered_at_ns i ≡ false) × ((evaluate fl e i o).0 ≡ e))
        ⊎ ((accepts e.state.entered_at_ns i ≡ true)
            × ((evaluate fl e i o).0.state ≡ (transition fl e.state i e.config).state)
            × ((evaluate fl e i o).0.config ≡ e.config))
  unfolding evaluate decide
  evaluate_accepted e i o = ground arith

  evaluate-Held :
      (e : PolicyEngine F) (i : PolicyInput F) (o : Bool) (h : List (PolicyInput F × Bool))
      → e.config ≡ c
      → HeldState e.state h
      → HeldState (evaluate fl e i o).0.state ((i, o) ∷ h)
  evaluate-Held e i o h g k = elim (evaluate_accepted e i o) [
    | inl (r, same) ↦
        subst (λ x. HeldState x.state ((i, o) ∷ h)) (sym same)
          (Held-skip e.state.current e.state.entered_at_ns e.state.candidate
            e.state.candidate_since_ns (i, o) h r k)
    | inr (a, t, _) ↦
        subst (λ x. HeldState x ((i, o) ∷ h))
          (sym (t ∙ ap (λ x. (transition fl e.state i x).state) g))
          (transition-Held e.state i o h a k)
  ]

  run-config :
      (e : PolicyEngine F) (h : List (PolicyInput F × Bool))
      → e.config ≡ c
      → (run fl e h).config ≡ c
  unfolding run
  run-config e [] g = g
  run-config e ((i, o) ∷ h) g = elim (evaluate_accepted (run fl e h) i o) [
    | inl (_, same) ↦ ap (λ x. x.config) same ∙ run-config e h g
    | inr (_, _, same) ↦ same ∙ run-config e h g
  ]

  run-Held :
      (start : ℤ) (h : List (PolicyInput F × Bool)) → HeldState (run fl (new c start) h).state h
  unfolding run new
  run-Held start [] = tt
  run-Held start ((i, o) ∷ h) =
      evaluate-Held (run fl (new c start) h) i o h (run-config (new c start) h refl)
        (run-Held start h)

  -- The times of accepted inputs are not negative.
  accepts_pos :
      (entered : ℤ) (i : PolicyInput F)
      → accepts entered i ≡ true
      → (n : ℕ) × (i.timestamp_ns ≡ pos n)
  unfolding validate
  accepts_pos entered i a = elim (ℤ-cases i.timestamp_ns) [
    | inl p ↦ p
    | inr (n, e) ↦ absurd (ground arith)
  ]

  Backed-pos :
      (s : PressureState) (entered : ℤ) (d : PressureState) (t : ℤ)
      (h : List (PolicyInput F × Bool))
      → Backed s entered d t h
      → (n : ℕ) × (t ≡ pos n)
  Backed-pos s entered d t [] b = absurd b
  Backed-pos s entered d t ((i, o) ∷ h) (inl (_, b)) = Backed-pos s entered d t h b
  Backed-pos s entered d t ((i, o) ∷ h) (inr (a, _, _, inl e)) =
      let (n, p) = accepts_pos entered i a in (n, sym e ∙ p)
  Backed-pos s entered d t ((i, o) ∷ h) (inr (a, _, _, inr b)) = Backed-pos s entered d t h b

  -- The hold of the change that the state desires.
  abbrev pub hold_of : PersistentState → PolicyInput F → ℕ
  hold_of s i = hold_seconds s.current (desired fl s i c) c

  -- The state that a new engine reaches by the history `h`.
  abbrev pub reached : ℤ → List (PolicyInput F × Bool) → PersistentState
  reached start h = (run fl (new c start) h).state

  -- A change of state that is not the immediate emergency, with a hold that is not zero: every
  -- accepted input since some time `t` asked for the new state, and `t` is at least the hold (or the
  -- largest `i64`) before the change.
  pub change_needs_hold :
      (start : ℤ) (h : List (PolicyInput F × Bool)) (i : PolicyInput F) (now : ℕ)
      → i.timestamp_ns ≡ pos now
      → now ≤ i64_max
      → (transition fl (reached start h) i c).changed ≡ true
      → is_immediate fl (desired fl (reached start h) i c) i c ≡ false
      → 0 < hold_of (reached start h) i
      → (t : ℕ) × Backed
          (reached start h).current
          (reached start h).entered_at_ns
          (desired fl (reached start h) i c)
          (pos t)
          h
        × (min (hold_of (reached start h) i * 1_000_000_000) i64_max + t ≤ now)
  change_needs_hold start h i now n b ch im ho =
      finish (since-Backed s (desired fl s i c) i.timestamp_ns h (run-Held start h))
        (transition-changed fl s i c ch).2
    where
      s : PersistentState
      s = (run fl (new c start) h).state

      d : PressureState
      d = desired fl s i c

      elapsed :
          (t : ℕ)
          → since s d i.timestamp_ns ≡ pos t
          → leb_ℤ
              (seconds_ns (hold_of s i))
              (saturating_sub i.timestamp_ns (since s d i.timestamp_ns))
            ≡ true
          → min (hold_of s i * 1_000_000_000) i64_max + t ≤ now
      elapsed t e k = held_since (hold_of s i) now t b (
          subst (λ x. leb_ℤ (seconds_ns (hold_of s i)) (saturating_sub x (pos t)) ≡ true) n
            (subst (λ x. leb_ℤ (seconds_ns (hold_of s i)) (saturating_sub i.timestamp_ns x) ≡ true)
              e k))

      finish :
          (i.timestamp_ns ≡ since s d i.timestamp_ns)
            ⊎ Backed s.current s.entered_at_ns d (since s d i.timestamp_ns) h
          → (is_immediate fl d i c ≡ true)
            ⊎ (leb_ℤ
                  (seconds_ns (hold_of s i))
                  (saturating_sub i.timestamp_ns (since s d i.timestamp_ns))
                ≡ true)
          → (t : ℕ) × Backed s.current s.entered_at_ns d (pos t) h
            × (min (hold_of s i * 1_000_000_000) i64_max + t ≤ now)
      finish _ (inl now_immediate) = absurd (cc)
      finish (inl e) (inr k) = absurd (omega (arith, elapsed now (sym e ∙ n) k))
      finish (inr w) (inr k) =
          let (t, e) = Backed-pos s.current s.entered_at_ns d (since s d i.timestamp_ns) h w in
          (t, subst (λ x. Backed s.current s.entered_at_ns d x h) e w, elapsed t e k)
