-- ===== src/Damos/Fence/Candidates.antt =====
-- What an accepted fence and accepted candidates say of single addresses (crates/damos/src/lib.rs).
use mathlib.Core.Path.{subst}
use nemor.Base.{sym, ℕ, ◌≤◌, ◌≡◌, ◌≢◌, ◌↔◌, true, false, List, [], ◌∷◌, arith, All, ok, str_eq_iff}
use nemor.Damon.Ranges.{AddressRange, range_eq_iff, Within, Meet, overlap_pos_iff}
use nemor.Damos.Types.{DamosBeforeApplyEvent}
use nemor.Damos.Fence.{
  AddressFence, semantics, validate, allows, is_external, violates, check_candidates,
  validate_shadow_candidates,
}

-- A fence is accepted exactly if it is a core address filter with the semantics of its interface
-- and the very range of the cold zone.
pub fence_exact :
    (fence : AddressFence) (cold : AddressRange)
    → (validate fence cold ≡ ok tt) ↔ (
        (fence.layer ≡ "core")
        × (fence.filter_type ≡ "addr")
        × (semantics fence.api fence.matching fence.allow ≡ true)
        × (fence.range ≡ cold))
unfolding validate
fence_exact fence cold =
    let layer = str_eq_iff fence.layer "core" in
    let filter = str_eq_iff fence.filter_type "addr" in
    let range = range_eq_iff fence.range cold in
    ((λ h. ground (arith, layer, filter, range)), (λ h. ground (arith, layer, filter, range)))

allows-Within :
    (fence : AddressFence) (address : ℕ)
    → validate fence fence.range ≡ ok tt
    → (allows fence address ≡ true) ↔ Within address fence.range
unfolding allows
allows-Within fence address h = ground arith

-- A fence that is accepted for a zone allows exactly the addresses of that zone.
pub accepted_fence_allows :
    (fence : AddressFence) (cold : AddressRange) (address : ℕ)
    → validate fence cold ≡ ok tt
    → (allows fence address ≡ true) ↔ Within address cold
accepted_fence_allows fence cold address h =
    let e : fence.range ≡ cold = ((fence_exact fence cold).0 h).3 in
    subst (λ x. (allows fence address ≡ true) ↔ Within address x) e
      (allows-Within fence address (subst (λ x. validate fence x ≡ ok tt) (sym e) h))

-- Of one accepted candidate: the event is of the session, its range lies in the
-- cold zone and has no address in either other zone, and it was not accessed for at least the age
-- asked for.
abbrev pub IsFenced :
    AddressRange → AddressRange → AddressRange → ℕ → DamosBeforeApplyEvent → Type 0
IsFenced hot warm cold age_min e =
    (is_external e ≡ false)
    × (cold.start ≤ e.range.start)
    × (e.range.end ≤ cold.end)
    × (¬ Meet e.range hot)
    × (¬ Meet e.range warm)
    × (e.nr_accesses ≡ 0)
    × (age_min ≤ e.age)

not-violates :
    (e : DamosBeforeApplyEvent) (hot warm cold : AddressRange) (age_min : ℕ)
    → is_external e ≡ false
    → violates e hot warm cold age_min ≡ false
    → IsFenced hot warm cold age_min e
unfolding violates
not-violates e hot warm cold age_min x v = (
  x,
  ground arith,
  ground arith,
  (λ m. ground (arith, (overlap_pos_iff e.range hot).1 m)),
  (λ m. ground (arith, (overlap_pos_iff e.range warm).1 m)),
  ground arith,
  ground arith,
)

check_candidates_step :
    (e : DamosBeforeApplyEvent) (es : List DamosBeforeApplyEvent) (hot warm cold : AddressRange)
    (age_min : ℕ)
    → check_candidates (e ∷ es) hot warm cold age_min ≡ ok tt
    → (is_external e ≡ false)
      × (violates e hot warm cold age_min ≡ false)
      × (check_candidates es hot warm cold age_min ≡ ok tt)
unfolding check_candidates
check_candidates_step e es hot warm cold age_min h = ground arith

check_candidates-All :
    (es : List DamosBeforeApplyEvent) (hot warm cold : AddressRange) (age_min : ℕ)
    → check_candidates es hot warm cold age_min ≡ ok tt
    → All (IsFenced hot warm cold age_min) es
check_candidates-All [] hot warm cold age_min h = tt
check_candidates-All (e ∷ es) hot warm cold age_min h =
    let (x, v, rest) = check_candidates_step e es hot warm cold age_min h in
    (not-violates e hot warm cold age_min x v, check_candidates-All es hot warm cold age_min rest)

-- Accepted shadow candidates: there is at least one, and each is fenced.
pub shadow_candidates-IsFenced :
    (es : List DamosBeforeApplyEvent) (hot warm cold : AddressRange) (age_min : ℕ)
    → validate_shadow_candidates es hot warm cold age_min ≡ ok tt
    → (es ≢ []) × All (IsFenced hot warm cold age_min) es
unfolding validate_shadow_candidates
shadow_candidates-IsFenced [] hot warm cold age_min h = cc
shadow_candidates-IsFenced (e ∷ es) hot warm cold age_min h =
    ((λ p. cc), check_candidates-All (e ∷ es) hot warm cold age_min h)
