-- ===== src/Base/Proc/Success.antt =====
-- Where a sequence of steps succeeds, each of its steps did.
use mathlib.Core.Path.{◌≡◌, refl}
use nemor.Base.Results.{Result, ok, err}
use nemor.Base.Proc.{Proc, ◌>>=◌, ◌>>◌, resume}

resume-ok :
    {W E A C : Type 0} (f : A → Proc W E C) (r : W × Result E A) {v : W} {c : C}
    → resume f r ≡ (v, ok c)
    → (u : W) × (a : A) × (r ≡ (u, ok a)) × (f a u ≡ (v, ok c))
resume-ok f (u, ok a) h = (u, a, refl, h)
resume-ok f (u, err e) h = absurd (cc)

-- Where two steps succeed, the first does, and the second from where the first ends.
pub >>=-ok :
    {W E A C : Type 0} (m : Proc W E A) (f : A → Proc W E C) (w : W) {v : W} {c : C}
    → (m >>= f) w ≡ (v, ok c)
    → (u : W) × (a : A) × (m w ≡ (u, ok a)) × (f a u ≡ (v, ok c))
>>=-ok m f w h = resume-ok f (m w) h

pub >>-ok :
    {W E C : Type 0} (m : Proc W E (Unit {0})) (k : Proc W E C) (w : W) {v : W} {c : C}
    → (m >> k) w ≡ (v, ok c)
    → (u : W) × (m w ≡ (u, ok tt)) × (k u ≡ (v, ok c))
>>-ok m k w h = let (u, _, p, q) = resume-ok (λ _. k) (m w) h in (u, p, q)
