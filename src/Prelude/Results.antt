-- ===== src/Prelude/Results.antt =====
-- Chains of steps that return or raise, without a state.
use mathlib.Core.Path.{◌≡◌, refl}
use mathlib.Core.Bool.{Bool, true, false}
use finite_agent_physics.Prelude.Methods.{Result, ok, err}

infixl 5 ◌>>=◌ ◌>>◌
abbrev pub ◌>>=◌ : {E A B : Type 0} → Result E A → (A → Result E B) → Result E B
ok a >>= f = f a
err e >>= f = err e

abbrev pub ◌>>◌ : {E B : Type 0} → Result E (Unit {0}) → Result E B → Result E B
m >> k = m >>= λ _. k

abbrev pub raise_when : {E : Type 0} → Bool → E → Result E (Unit {0})
raise_when true e = err e
raise_when false e = ok tt

-- What returns was returned by each of its steps.
pub >>=-eq-ok :
    {E A B : Type 0} {last : B} (first : Result E A) (rest : A → Result E B)
    → (first >>= rest) ≡ ok last
    → (between : A) × (first ≡ ok between) × (rest between ≡ ok last)
>>=-eq-ok (ok between) rest returned = (between, refl, returned)
>>=-eq-ok (err raised) rest returned = cc

pub raise_when-eq-ok : {E : Type 0} (c : Bool) (e : E) → raise_when c e ≡ ok tt → c ≡ false
raise_when-eq-ok true e h = cc
raise_when-eq-ok false e h = refl
