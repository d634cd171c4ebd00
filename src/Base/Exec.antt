-- ===== src/Base/Exec.antt =====
-- The steps of Base.Proc built from combinators that stay shut, so that a proof can follow how a step
-- is built: each combinator has its rule in Keeps.
pub mod Keeps
pub mod Turns
use mathlib.Core.Bool.{Bool}
use mathlib.Core.Option.{Option}
use nemor.Base.Results.{Result, ok, err}
use nemor.Base.Proc
use nemor.Base.Proc.{Proc, resume}

module _ {W E A : Type 0} where
  unfoldable pub pure : A → Proc W E A
  pure a w = (w, ok a)

  -- A step that reads and leaves the state alone.
  unfoldable pub query : (W → Result E A) → Proc W E A
  query f w = (w, f w)

  unfoldable pub need : Option A → E → Proc W E A
  need o e = Proc.need o e

module _ {W E : Type 0} where
  unfoldable pub refuse : Bool → E → Proc W E (Unit {0})
  refuse bad e = Proc.refuse bad e

  unfoldable pub when : Bool → Proc W E (Unit {0}) → Proc W E (Unit {0})
  when test m = Proc.when test m

module _ {W E A B : Type 0} where
  infixl 5 ◌>>=◌ ◌>>◌
  unfoldable pub ◌>>=◌ : Proc W E A → (A → Proc W E B) → Proc W E B
  ◌>>=◌ m f w = resume f (m w)

  abbrev pub ◌>>◌ : Proc W E A → Proc W E B → Proc W E B
  m >> k = m >>= λ _. k
