-- ===== src/Base/Exec/Keeps.antt =====
-- Predicates of the state that a step keeps, whether it succeeds or not, and steps that never succeed
-- where such a predicate holds.
use mathlib.Core.Path.{◌≡◌, refl, sym}
use mathlib.Core.Bool.{Bool, true, false, true≢false}
use mathlib.Core.Option.{Option, none, some}
use nemor.Base.Results.{Result, ok, err, is_ok}
use nemor.Base.Proc.{Proc, resume}
use nemor.Base.Exec.{◌>>=◌, pure, query, need, refuse, when}

pub record Keeps {W E A : Type 0} (P : W → Type 0) (m : Proc W E A) : Type 0 where
  pub at : (w : W) → P w → P (m w).0

-- From a state in which the predicate holds, the step fails.
pub record Fails {W E A : Type 0} (P : W → Type 0) (m : Proc W E A) : Type 0 where
  pub at : (w : W) → P w → is_ok (m w).1 ≡ false

-- Where the step succeeds, the predicate holds after it.
pub record Ensures {W E A : Type 0} (P : W → Type 0) (m : Proc W E A) : Type 0 where
  pub at : (w : W) → is_ok (m w).1 ≡ true → P (m w).0

module _ {W E A : Type 0} {P : W → Type 0} where
  pub Keeps-pure : (a : A) → Keeps {E = E} P (pure a)
  unfolding pure
  Keeps-pure a = record { at = λ w p. p }

  pub Keeps-query : (f : W → Result E A) → Keeps P (query f)
  unfolding query
  Keeps-query f = record { at = λ w p. p }

  pub Keeps-need : (o : Option A) (e : E) → Keeps P (need o e)
  unfolding need
  Keeps-need none e = record { at = λ w p. p }
  Keeps-need (some a) e = record { at = λ w p. p }

module _ {W E : Type 0} {P : W → Type 0} where
  pub Keeps-refuse : (b : Bool) (e : E) → Keeps P (refuse b e)
  unfolding refuse
  Keeps-refuse true e = record { at = λ w p. p }
  Keeps-refuse false e = record { at = λ w p. p }

  pub Keeps-when : (b : Bool) (m : Proc W E (Unit {0})) → Keeps P m → Keeps P (when b m)
  unfolding when
  Keeps-when true m k = record { at = k.at }
  Keeps-when false m k = record { at = λ w p. p }

module _ {W E A : Type 0} where
  pub query-ok : (f : W → Result E A) (w : W) → is_ok (query f w).1 ≡ true → is_ok (f w) ≡ true
  unfolding query
  query-ok f w h = h

module _ {W E A B : Type 0} where
  first-state : (f : A → Proc W E B) (r : W × Result E A) → is_ok r.1 ≡ false → (resume f r).0 ≡ r.0
  first-state f (w, ok a) e = absurd (true≢false e)
  first-state f (w, err e') e = refl

  first-fails :
      (f : A → Proc W E B) (r : W × Result E A) → is_ok r.1 ≡ false → is_ok (resume f r).1 ≡ false
  first-fails f (w, ok a) e = absurd (true≢false e)
  first-fails f (w, err e') e = refl

  resume-ok :
      (f : A → Proc W E B) (r : W × Result E A) → is_ok (resume f r).1 ≡ true → is_ok r.1 ≡ true
  resume-ok f (w, ok a) h = refl
  resume-ok f (w, err e) h = h

  -- Where two steps succeed, the first one does.
  pub first-ok :
      (m : Proc W E A) (f : A → Proc W E B) (w : W)
      → is_ok ((m >>= f) w).1 ≡ true
      → is_ok (m w).1 ≡ true
  unfolding ◌>>=◌
  first-ok m f w h = resume-ok f (m w) h

module _ {W E A B : Type 0} {P : W → Type 0} where
  Keeps-resume :
      (f : A → Proc W E B) (r : W × Result E A)
      → ((a : A) → Keeps P (f a))
      → P r.0
      → P (resume f r).0
  Keeps-resume f (w, ok a) k p = (k a).at w p
  Keeps-resume f (w, err e) k p = p

  pub Keeps-bind :
      (m : Proc W E A) (f : A → Proc W E B)
      → Keeps P m
      → ((a : A) → Keeps P (f a))
      → Keeps P (m >>= f)
  unfolding ◌>>=◌
  Keeps-bind m f km kf = record { at = λ w p. Keeps-resume f (m w) kf (km.at w p) }

  Fails-resume :
      (f : A → Proc W E B) (r : W × Result E A)
      → ((a : A) → Fails P (f a))
      → P r.0
      → is_ok (resume f r).1 ≡ false
  Fails-resume f (w, ok a) k p = (k a).at w p
  Fails-resume f (w, err e) k p = refl

  pub Fails-bind :
      (m : Proc W E A) (f : A → Proc W E B)
      → Keeps P m
      → ((a : A) → Fails P (f a))
      → Fails P (m >>= f)
  unfolding ◌>>=◌
  Fails-bind m f km kf = record { at = λ w p. Fails-resume f (m w) kf (km.at w p) }

  Ensures-resume :
      (f : A → Proc W E B) (r : W × Result E A)
      → ((a : A) → Ensures P (f a))
      → is_ok (resume f r).1 ≡ true
      → P (resume f r).0
  Ensures-resume f (w, ok a) k h = (k a).at w h
  Ensures-resume f (w, err e) k h = absurd (true≢false (sym h))

  pub Ensures-bind :
      (m : Proc W E A) (f : A → Proc W E B) → ((a : A) → Ensures P (f a)) → Ensures P (m >>= f)
  unfolding ◌>>=◌
  Ensures-bind m f kf = record { at = λ w h. Ensures-resume f (m w) kf h }

  -- A step that fails is the end.
  pub Fails-first : (m : Proc W E A) (f : A → Proc W E B) → Fails P m → Fails P (m >>= f)
  unfolding ◌>>=◌
  Fails-first m f fm = record { at = λ w p. first-fails f (m w) (fm.at w p) }

  pub Keeps-first :
      (m : Proc W E A) (f : A → Proc W E B) → Fails P m → Keeps P m → Keeps P (m >>= f)
  unfolding ◌>>=◌
  Keeps-first m f fm km = record { at = λ w p. rw (first-state f (m w) (fm.at w p)) (km.at w p) }

pub ruleset keeps_rules =
    (Keeps-pure, Keeps-query, Keeps-need, Keeps-refuse, Keeps-when, Keeps-bind)
