-- ===== src/Base/Exec/Turns.antt =====
-- Steps that lead from one predicate of the state to another one.
use mathlib.Core.Path.{◌≡◌, refl, sym}
use mathlib.Core.Bool.{true, true≢false}
use nemor.Base.Results.{Result, ok, err, is_ok}
use nemor.Base.Proc.{Proc, resume}
use nemor.Base.Exec.{◌>>=◌, query}
use nemor.Base.Exec.Keeps.{Keeps}

-- From a state with the first predicate the step ends with the second, also where it fails.
pub record Turns {W E A : Type 0} (P Q : W → Type 0) (m : Proc W E A) : Type 0 where
  pub at : (w : W) → P w → Q (m w).0

-- The same where it succeeds.
pub record Leads {W E A : Type 0} (P Q : W → Type 0) (m : Proc W E A) : Type 0 where
  pub at : (w : W) → P w → is_ok (m w).1 ≡ true → Q (m w).0

module _ {W E A : Type 0} {P : W → Type 0} where
  pub Keeps-Turns :
      {Q : W → Type 0} {m : Proc W E A} → Keeps P m → ((w : W) → P w → Q w) → Turns P Q m
  Keeps-Turns {m = m} k f = record { at = λ w p. f (m w).0 (k.at w p) }

  pub Keeps-Leads : {m : Proc W E A} → Keeps P m → Leads P P m
  Keeps-Leads k = record { at = λ w p h. k.at w p }

module _ {W E A B : Type 0} {Q R : W → Type 0} where
  Turns-resume :
      (f : A → Proc W E B) (r : W × Result E A)
      → ((a : A) → Turns R Q (f a))
      → Q r.0
      → (is_ok r.1 ≡ true → R r.0)
      → Q (resume f r).0
  Turns-resume f (w, ok a) k q h = (k a).at w (h refl)
  Turns-resume f (w, err e) k q h = q

  Leads-resume :
      (f : A → Proc W E B) (r : W × Result E A)
      → ((a : A) → Leads R Q (f a))
      → (is_ok r.1 ≡ true → R r.0)
      → is_ok (resume f r).1 ≡ true
      → Q (resume f r).0
  Leads-resume f (w, ok a) k h s = (k a).at w (h refl) s
  Leads-resume f (w, err e) k h s = absurd (true≢false (sym s))

module _ {W E A B : Type 0} {P Q R : W → Type 0} where
  -- A failure of the first step ends with `Q`; its success leads to `R`, from which the rest ends
  -- with `Q`.
  pub Turns-bind :
      (m : Proc W E A) (f : A → Proc W E B)
      → Turns P Q m
      → Leads P R m
      → ((a : A) → Turns R Q (f a))
      → Turns P Q (m >>= f)
  unfolding ◌>>=◌
  Turns-bind m f tm lm kf = record { at = λ w p. Turns-resume f (m w) kf (tm.at w p) (lm.at w p) }

  pub Leads-bind :
      (m : Proc W E A) (f : A → Proc W E B)
      → Leads P R m
      → ((a : A) → Leads R Q (f a))
      → Leads P Q (m >>= f)
  unfolding ◌>>=◌
  Leads-bind m f lm kf = record { at = λ w p s. Leads-resume f (m w) kf (lm.at w p) s }

module _ {W E A : Type 0} where
  Leads-answer :
      {B : Type 0} (Q : W → Type 0) (k : A → Proc W E B) (w : W) (r : Result E A)
      → ((a : A) → r ≡ ok a → is_ok (k a w).1 ≡ true → Q (k a w).0)
      → is_ok (resume k (w, r)).1 ≡ true
      → Q (resume k (w, r)).0
  Leads-answer Q k w (ok a) g s = g a refl s
  Leads-answer Q k w (err e) g s = absurd (true≢false (sym s))

  -- After a query the rest may use what was answered.
  pub Leads-query :
      {B : Type 0} {P Q : W → Type 0} (f : W → Result E A) (k : A → Proc W E B)
      → ((a : A) → Leads (λ w. P w × (f w ≡ ok a)) Q (k a))
      → Leads P Q (query f >>= k)
  unfolding query ◌>>=◌
  Leads-query {Q = Q} f k g = record {
    at = λ w p s. Leads-answer Q k w (f w) (λ a e h. (g a).at w (p, e) h) s;
  }
