-- ===== src/Base/Proc.antt =====
-- Stateful code that can fail: a state, passed on also when a step fails, and a result. `&mut self`
-- methods and the functions that call them with `?` are such steps.
pub mod Success
use mathlib.Core.Bool.{Bool, true, false}
use mathlib.Core.Option.{Option, none, some}
use nemor.Base.Results.{Result, ok, err}

abbrev pub Proc : Type 0 → Type 0 → Type 0 → Type 0
Proc W E A = W → W × Result E A

module _ {W E A B : Type 0} where
  abbrev pub resume : (A → Proc W E B) → W × Result E A → W × Result E B
  resume f (w, ok a) = f a w
  resume f (w, err e) = (w, err e)

infixl 5 ◌>>=◌ ◌>>◌
abbrev pub ◌>>=◌ : {W E A B : Type 0} → Proc W E A → (A → Proc W E B) → Proc W E B
◌>>=◌ m f w = resume f (m w)

abbrev pub ◌>>◌ : {W E B : Type 0} → Proc W E (Unit {0}) → Proc W E B → Proc W E B
◌>>◌ m k w = resume (λ _. k) (m w)

module _ {W E A : Type 0} where
  abbrev pub pure : A → Proc W E A
  pure a w = (w, ok a)

  abbrev pub fail : E → Proc W E A
  fail e w = (w, err e)

  -- A step that reads and leaves the state alone.
  abbrev pub query : (W → Result E A) → Proc W E A
  query f w = (w, f w)

  abbrev pub catch_with : (E → Proc W E A) → W × Result E A → W × Result E A
  catch_with f (w, ok a) = (w, ok a)
  catch_with f (w, err e) = f e w

  -- `if let Err(e) = m { handler }`.
  abbrev pub catch : Proc W E A → (E → Proc W E A) → Proc W E A
  catch m f w = catch_with f (m w)

  -- `option.ok_or(e)?`.
  abbrev pub need : Option A → E → Proc W E A
  need none e w = (w, err e)
  need (some a) e w = (w, ok a)

module _ {W E : Type 0} where
  -- `if bad { return Err(e) }`.
  abbrev pub refuse : Bool → E → Proc W E (Unit {0})
  refuse true e w = (w, err e)
  refuse false e w = (w, ok tt)

  abbrev pub modify : (W → W) → Proc W E (Unit {0})
  modify f w = (f w, ok tt)

  -- `if test { m }`.
  abbrev pub when : Bool → Proc W E (Unit {0}) → Proc W E (Unit {0})
  when true m w = m w
  when false m w = (w, ok tt)
